-- ===== src/Submission/Base64.antt =====
-- backend/submission.py: base64url without padding. Bytes are numbers below 256, text is ASCII.
use bmd_compute.Prelude.{
  ℕ, ◌+◌, ◌-◌, ◌*◌, ◌/◌, ◌%◌, ◌≤◌, ◌<◌, Bool, true, ◌&&◌, ◌||◌, Option, none, some, List, [], ◌∷◌,
  ◌≡◌, ◌≢◌, ◌∙◌, refl, ap, ap₂, arith, all, length, leb, ltb, ◌==◌, if◌then◌else◌,
}
use bmd_compute.Canonical.{map_option}

abbrev pub is_byte : ℕ → Bool
is_byte b = ltb b 256

-- The character of a value below 64.
unfoldable pub character : ℕ → ℕ
character v =
    if ltb v 26
    then 65 + v
    else if ltb v 52
    then 71 + v
    else if ltb v 62
    then v - 4
    else if v == 62
    then 45
    else 95

-- `[A-Za-z0-9_-]`
abbrev pub is_base64_code : ℕ → Bool
is_base64_code c =
    (leb 65 c && leb c 90)
    || (leb 97 c && leb c 122)
    || (leb 48 c && leb c 57)
    || (c == 95)
    || (c == 45)

-- The value of such a character.
unfoldable pub sextet : ℕ → ℕ
sextet c =
    if leb 65 c && leb c 90
    then c - 65
    else if leb 97 c && leb c 122
    then c - 71
    else if leb 48 c && leb c 57
    then c + 4
    else if c == 45
    then 62
    else 63

unfoldable pub urlsafe_b64encode : List ℕ → List ℕ
unfolding character
urlsafe_b64encode [] = []
urlsafe_b64encode (a ∷ []) = character (a / 4) ∷ character (a % 4 * 16) ∷ []
urlsafe_b64encode (a ∷ b ∷ []) =
    character (a / 4) ∷ character (a % 4 * 16 + b / 16) ∷ character (b % 16 * 4) ∷ []
urlsafe_b64encode (a ∷ b ∷ c ∷ bytes) =
    character (a / 4)
    ∷ character (a % 4 * 16 + b / 16)
    ∷ character (b % 16 * 4 + c / 64)
    ∷ character (c % 64)
    ∷ urlsafe_b64encode bytes

-- A last group of two or three characters is padded, and the bits it has left over are dropped; one of
-- a single character is an error.
unfoldable pub groups_bytes : List ℕ → Option (List ℕ)
unfolding sextet
groups_bytes [] = some []
groups_bytes (w ∷ []) = none
groups_bytes (w ∷ x ∷ []) = some ((sextet w * 4 + sextet x / 16) ∷ [])
groups_bytes (w ∷ x ∷ y ∷ []) =
    some ((sextet w * 4 + sextet x / 16) ∷ (sextet x % 16 * 16 + sextet y / 4) ∷ [])
groups_bytes (w ∷ x ∷ y ∷ z ∷ text) =
    map_option
      (λ bytes.
        (sextet w * 4 + sextet x / 16)
        ∷ (sextet x % 16 * 16 + sextet y / 4)
        ∷ (sextet y % 4 * 64 + sextet z)
        ∷ bytes)
      (groups_bytes text)

-- `re.fullmatch(r"[A-Za-z0-9_-]+", value)` and the decoding.
unfoldable pub urlsafe_b64decode : List ℕ → Option (List ℕ)
unfolding groups_bytes
urlsafe_b64decode [] = none
urlsafe_b64decode (c ∷ text) =
    if all is_base64_code (c ∷ text) then groups_bytes (c ∷ text) else none

sextet-character : (v : ℕ) → v < 64 → sextet (character v) ≡ v
unfolding sextet character
sextet-character v small = ground arith

character-base64 : (v : ℕ) → is_base64_code (character v) ≡ true
unfolding character
character-base64 v = ground arith

first_byte :
    (a t : ℕ)
    → a < 256
    → t < 16
    → sextet (character (a / 4)) * 4 + sextet (character (a % 4 * 16 + t)) / 16 ≡ a
first_byte a t byte small =
    omega (
      arith,
      sextet-character (a / 4) (omega arith),
      sextet-character (a % 4 * 16 + t) (omega arith),
    )

second_byte :
    (s b t : ℕ)
    → b < 256
    → s < 4
    → t < 4
    → sextet (character (s * 16 + b / 16)) % 16 * 16 + sextet (character (b % 16 * 4 + t)) / 4 ≡ b
second_byte s b t byte low small = omega (
  arith,
  sextet-character (s * 16 + b / 16) (omega arith),
  sextet-character (b % 16 * 4 + t) (omega arith),
)

third_byte :
    (s c : ℕ)
    → c < 256
    → s < 16
    → sextet (character (s * 4 + c / 64)) % 4 * 64 + sextet (character (c % 64)) ≡ c
third_byte s c byte low = omega (
  arith,
  sextet-character (s * 4 + c / 64) (omega arith),
  sextet-character (c % 64) (omega arith),
)

groups_bytes-encode :
    (bytes : List ℕ)
    → all is_byte bytes ≡ true
    → groups_bytes (urlsafe_b64encode bytes) ≡ some bytes
unfolding groups_bytes urlsafe_b64encode
groups_bytes-encode [] small = refl
groups_bytes-encode (a ∷ []) small =
    let byte : a < 256 = ground (arith, small) in
    ap (λ x. some (x ∷ []))
      (omega (
        arith,
        sextet-character (a / 4) (omega arith),
        sextet-character (a % 4 * 16) (omega arith),
      ))
groups_bytes-encode (a ∷ b ∷ []) small =
    let byte : a < 256 = ground (arith, small) in
    let byte' : b < 256 = ground (arith, small) in
    ap₂ (λ x y. some (x ∷ y ∷ [])) (first_byte a (b / 16) byte (omega arith))
      (omega (
        arith,
        sextet-character (a % 4 * 16 + b / 16) (omega arith),
        sextet-character (b % 16 * 4) (omega arith),
      ))
groups_bytes-encode (a ∷ b ∷ c ∷ bytes) small =
    let byte : a < 256 = ground (arith, small) in
    let byte' : b < 256 = ground (arith, small) in
    let byte'' : c < 256 = ground (arith, small) in
    rw
      (
        groups_bytes-encode bytes (ground (arith, small)),
        first_byte a (b / 16) byte (omega arith),
        second_byte (a % 4) b (c / 64) byte' (omega arith) (omega arith),
        third_byte (b % 16) c byte'' (omega arith),
      )
      refl

pub encode-base64 : (bytes : List ℕ) → all is_base64_code (urlsafe_b64encode bytes) ≡ true
unfolding urlsafe_b64encode
encode-base64 [] = refl
encode-base64 (a ∷ []) = rw (character-base64 (a / 4), character-base64 (a % 4 * 16))
encode-base64 (a ∷ b ∷ []) = rw (
  character-base64 (a / 4),
  character-base64 (a % 4 * 16 + b / 16),
  character-base64 (b % 16 * 4),
)
encode-base64 (a ∷ b ∷ c ∷ bytes) = rw (
  character-base64 (a / 4),
  character-base64 (a % 4 * 16 + b / 16),
  character-base64 (b % 16 * 4 + c / 64),
  character-base64 (c % 64),
  encode-base64 bytes,
)

-- Four characters for three bytes.
pub encode-length : (bytes : List ℕ) → 3 * length (urlsafe_b64encode bytes) ≤ 4 * length bytes + 2
unfolding urlsafe_b64encode
encode-length [] = omega arith
encode-length (a ∷ []) = omega arith
encode-length (a ∷ b ∷ []) = omega arith
encode-length (a ∷ b ∷ c ∷ bytes) = omega (arith, encode-length bytes)

encode-not_empty : (b : ℕ) (bytes : List ℕ) → urlsafe_b64encode (b ∷ bytes) ≢ []
unfolding urlsafe_b64encode
encode-not_empty b [] = λ same. cc
encode-not_empty b (c ∷ []) = λ same. cc
encode-not_empty b (c ∷ d ∷ bytes) = λ same. cc

decode-groups :
    (text : List ℕ)
    → text ≢ []
    → all is_base64_code text ≡ true
    → urlsafe_b64decode text ≡ groups_bytes text
unfolding urlsafe_b64decode
decode-groups [] some_text valid = absurd (some_text refl)
decode-groups (c ∷ text) some_text valid = rw valid

-- What is written is read back.
pub decode-encode :
    (b : ℕ) (bytes : List ℕ)
    → all is_byte (b ∷ bytes) ≡ true
    → urlsafe_b64decode (urlsafe_b64encode (b ∷ bytes)) ≡ some (b ∷ bytes)
decode-encode b bytes small =
    decode-groups (urlsafe_b64encode (b ∷ bytes)) (encode-not_empty b bytes)
      (encode-base64 (b ∷ bytes))
    ∙ groups_bytes-encode (b ∷ bytes) small
