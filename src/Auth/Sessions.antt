-- ===== src/Auth/Sessions.antt =====
-- internal/auth/auth.go: which session tokens are valid, and for how long.
use Prim.Native.Char.{Char, char}
use text.Mathlib.TextLemmas.{nil-append, cons-append}
use project_talos.Prelude.{
  ℕ, ◌+◌, ◌<◌, ◌≤◌, String, ◌<>◌, ◌≡◌, refl, ◌∙◌, ap, Bool, true, false, Option, none, some, cut,
  has_char, has_char-append, cut-append, cut-eq-some, ltb, ◌==◌, string_eq, eq_iff, eq_refl,
  if◌then◌else◌, Bool-cases, inl, inr, arith,
}
use project_talos.Domain.{User, unauthorized, Result, ok, err}
use project_talos.Auth.{
  Users, Libraries, payload_of, token_of, create_session, known, claimed, verified, decoded,
  parts_of, validate_session,
}

abbrev dot : Char
dot = char 46 tt

abbrev colon : Char
colon = char 58 tt

abbrev pub max_int : ℕ
max_int = 9223372036854775808

-- What the libraries promise of the texts that tokens are made of
pub record TokenLaws {W : Type 0} (libraries : Libraries W) : Type 0 where
  pub encoded_lacks :
      (s : String) → has_char b'.' s ≡ false → has_char b'.' (libraries.encode s) ≡ false
  pub decoded_encoded :
      (s : String) → has_char b'.' s ≡ false → libraries.decode (libraries.encode s) ≡ some s
  pub number_without_dot : (n : ℕ) → has_char b'.' (libraries.format_int n) ≡ false
  pub number_without_colon : (n : ℕ) → has_char b':' (libraries.format_int n) ≡ false
  pub parsed : (n : ℕ) → n < max_int → libraries.parse_int (libraries.format_int n) ≡ some n

one_char : (c : Char) (s : String) → String.◌∷◌ c "" <> s ≡ String.◌∷◌ c s
one_char c s = cons-append c "" s ∙ ap (String.◌∷◌ c) (nil-append s)

module _ {W : Type 0} (users : Users W) (libraries : Libraries W) where
  open libraries use {encode, decode, sign, format_int, parse_int, now, max_age}

  module _ (laws : TokenLaws libraries) where
    payload-no-dot :
        (id expires : ℕ) → has_char b'.' (payload_of users libraries id expires) ≡ false
    payload-no-dot id expires =
        has_char-append b'.' (format_int id) (":" <> format_int expires)
        ∙ rw (laws.number_without_dot id)
            (has_char-append b'.' ":" (format_int expires) ∙ laws.number_without_dot expires)

    cut-payload :
        (id expires : ℕ)
        → cut b':' (payload_of users libraries id expires)
          ≡ some (format_int id, format_int expires)
    cut-payload id expires =
        ap (λ s. cut b':' (format_int id <> s)) (one_char colon (format_int expires))
        ∙ cut-append b':' colon (format_int id) (format_int expires) refl
            (laws.number_without_colon id)

    cut-token :
        (payload : String)
        → has_char b'.' payload ≡ false
        → cut b'.' (token_of users libraries payload) ≡ some (encode payload, sign payload)
    cut-token payload h =
        ap (λ s. cut b'.' (encode payload <> s)) (one_char dot (sign payload))
        ∙ cut-append b'.' dot (encode payload) (sign payload) refl (laws.encoded_lacks payload h)

    decoded-signed :
        (payload : String) (w : W)
        → has_char b'.' payload ≡ false
        → (parts_of users libraries (some (encode payload, sign payload)) w).0
          ≡ (verified users libraries (cut b':' payload) w).0
    unfolding parts_of decoded
    decoded-signed payload w h =
        rw (laws.decoded_encoded payload h) (rw (eq_refl (sign payload)) refl)

    verified-claims :
        (id expires : ℕ) (w : W)
        → id < max_int
        → expires < max_int
        → (verified users libraries (some (format_int id, format_int expires)) w).0 ≡ (
            if ltb expires (now w)
            then err unauthorized
            else known users libraries (users.get_user_by_id id w).0)
    unfolding verified claimed
    verified-claims id expires w i e = rw (laws.parsed id i) (
        rw (laws.parsed expires e)
          (elim (Bool-cases (ltb expires (now w))) [ inl p ↦ rw (p) refl | inr p ↦ rw (p) refl ]))

    -- A token that was made for a user is answered, as long as its time of expiry has not passed, as
    -- the table of users answers for the user's id, with an unknown id unauthorized; after it, it is
    -- unauthorized. The id and the time fit into 64 bits.
    pub validate-create_session :
        (user : User) (issued w : W)
        → user.id < max_int
        → now issued + max_age < max_int
        → (validate_session users libraries (create_session users libraries user issued) w).0 ≡ (
            if ltb (now issued + max_age) (now w)
            then err unauthorized
            else known users libraries (users.get_user_by_id user.id w).0)
    unfolding validate_session create_session
    validate-create_session user issued w i e =
        let expires = now issued + max_age in
        let payload = payload_of users libraries user.id expires in
        let plain = payload-no-dot user.id expires in
        ap (λ r. (parts_of users libraries r w).0) (cut-token payload plain)
        ∙ decoded-signed payload w plain
        ∙ ap (λ r. (verified users libraries r w).0) (cut-payload user.id expires)
        ∙ verified-claims user.id expires w i e

  -- A token, the time and the user that it stands for
  pub record IsSigned (token : String) (w : W) (user : User) : Type 0 where
    pub encoded : String
    pub payload : String
    pub signed : token ≡ encoded <> String.◌∷◌ dot (sign payload)
    pub plain : decode encoded ≡ some payload
    pub id_text : String
    pub expires_text : String
    pub claims : payload ≡ id_text <> String.◌∷◌ colon expires_text
    pub id : ℕ
    pub expires : ℕ
    pub id_read : parse_int id_text ≡ some id
    pub expires_read : parse_int expires_text ≡ some expires
    pub in_time : now w ≤ expires
    pub stored : (users.get_user_by_id id w).0 ≡ ok user

  Claimed : Option ℕ → Option ℕ → W → User → Type 0
  Claimed a b w user =
      (id : ℕ) × (expires : ℕ) × (a ≡ some id)
      × (b ≡ some expires)
      × (now w ≤ expires)
      × ((users.get_user_by_id id w).0 ≡ ok user)

  refused : {A : Type 0} {user : User} → err unauthorized ≡ ok user → A
  refused h = absurd cc

  known-ok : (r : Result User) (user : User) → known users libraries r ≡ ok user → r ≡ ok user
  known-ok (ok u) user h = h
  known-ok (err e) user h = refused h

  claimed-Claimed :
      (a b : Option ℕ) (w : W) (user : User)
      → (claimed users libraries a b w).0 ≡ ok user
      → Claimed a b w user
  unfolding claimed Claimed
  claimed-Claimed none b w user h = refused h
  claimed-Claimed (some id) none w user h = refused h
  claimed-Claimed (some id) (some expires) w user h = in_time (ltb expires (now w)) refl h
    where
      in_time :
          (b : Bool)
          → ltb expires (now w) ≡ b
          → (if◌then◌else◌ {A = Result User × W} b
              (err unauthorized, w)
              (let (r, w') = users.get_user_by_id id w in (known users libraries r, w'))).0
            ≡ ok user
          → Claimed (some id) (some expires) w user
      in_time true p k = refused k
      in_time false p k = (
        id,
        expires,
        refl,
        refl,
        ground (arith, p),
        known-ok (users.get_user_by_id id w).0 user k,
      )

  verified-IsSigned :
      (token encoded payload : String) (r : Option (String × String)) (w : W) (user : User)
      → token ≡ encoded <> String.◌∷◌ dot (sign payload)
      → decode encoded ≡ some payload
      → cut b':' payload ≡ r
      → (verified users libraries r w).0 ≡ ok user
      → IsSigned token w user
  unfolding verified Claimed
  verified-IsSigned token encoded payload none w user t d c h = refused h
  verified-IsSigned token encoded payload (some (id_text, expires_text)) w user t d c h =
      let (id, expires, i, e, time, row) = claimed-Claimed _ _ w user h in
      record {
        encoded = encoded;
        payload = payload;
        signed = t;
        plain = d;
        id_text = id_text;
        expires_text = expires_text;
        claims = (cut-eq-some colon payload id_text expires_text c).0;
        id = id;
        expires = expires;
        id_read = i;
        expires_read = e;
        in_time = time;
        stored = row;
      }

  decoded-IsSigned :
      (token encoded signature : String) (r : Option String) (w : W) (user : User)
      → token ≡ encoded <> String.◌∷◌ dot signature
      → decode encoded ≡ r
      → (decoded users libraries signature r w).0 ≡ ok user
      → IsSigned token w user
  unfolding decoded
  decoded-IsSigned token encoded signature none w user t d h = refused h
  decoded-IsSigned token encoded signature (some payload) w user t d h =
      same (signature == sign payload) refl h
    where
      same :
          (b : Bool)
          → (signature == sign payload) ≡ b
          → (if b then verified users libraries (cut b':' payload) w else (err unauthorized, w)).0
            ≡ ok user
          → IsSigned token w user
      same true p k =
          verified-IsSigned token encoded payload (cut b':' payload) w user
            (t ∙ ap (λ x. encoded <> String.◌∷◌ dot x) ((eq_iff signature (sign payload)).0 p)) d
            refl k
      same false p k = refused k

  parts_of-IsSigned :
      (token : String) (r : Option (String × String)) (w : W) (user : User)
      → cut b'.' token ≡ r
      → (parts_of users libraries r w).0 ≡ ok user
      → IsSigned token w user
  unfolding parts_of
  parts_of-IsSigned token none w user c h = refused h
  parts_of-IsSigned token (some (encoded, signature)) w user c h =
      decoded-IsSigned token encoded signature (decode encoded) w user
        (cut-eq-some dot token encoded signature c).0 refl h

  -- Only a token with the signature of its payload, which names a user and a time that has not
  -- passed, is valid, and it stands for the row of that user.
  pub validated-IsSigned :
      (token : String) (w : W) (user : User)
      → (validate_session users libraries token w).0 ≡ ok user
      → IsSigned token w user
  unfolding validate_session
  validated-IsSigned token w user h = parts_of-IsSigned token (cut b'.' token) w user refl h
