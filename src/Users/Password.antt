-- ===== src/Users/Password.antt =====
-- `hashPassword` and `verifyPassword` of backend/auth/service.ts. Node's `pbkdf2Sync` and base64url,
-- and the reading of a decimal number, are parameters.
use mathlib.Core.List.{append_assoc, append-nil}
use restaurant_pos.Base.{
  ℕ, ◌≡◌, sym, ◌∙◌, ◌≢◌, ap, Bool, true, false, ◌&&◌, Option, none, some, List, [], ◌∷◌, ◌++◌, ◌==◌,
  if◌then◌else◌, All, arith, not,
}
use restaurant_pos.Base.Text.{Text, same_text, same_text_refl, is_blank_text}

-- What the code takes from Node: `pbkdf2Sync(password, salt, iterations, length, digest)` as a
-- base64url text, the number of bytes such a text stands for, and `Number` where it is an integer.
pub record Crypto : Type 0 where
  pub pbkdf2 : Text → Text → ℕ → ℕ → Text → Text
  pub byte_length : Text → ℕ
  pub integer_of : Text → Option ℕ

abbrev pub dollar : ℕ
dollar = 36

abbrev pub word_pbkdf2 : Text
word_pbkdf2 = 112 ∷ 98 ∷ 107 ∷ 100 ∷ 102 ∷ 50 ∷ []

abbrev pub word_sha256 : Text
word_sha256 = 115 ∷ 104 ∷ 97 ∷ 50 ∷ 53 ∷ 54 ∷ []

-- `PASSWORD_ITERATIONS`, as a number and as the text of it, and `PASSWORD_KEY_LENGTH`
abbrev pub password_iterations : ℕ
password_iterations = 210_000

abbrev pub iterations_text : Text
iterations_text = 50 ∷ 49 ∷ 48 ∷ 48 ∷ 48 ∷ 48 ∷ []

abbrev pub password_key_length : ℕ
password_key_length = 32

unfoldable pub hash_password : Crypto → Text → Text → Text
hash_password c password salt =
    word_pbkdf2
    ++ (dollar
        ∷ (word_sha256
            ++ (dollar
                ∷ (iterations_text
                    ++ (dollar
                        ∷ (salt
                            ++ (dollar
                                ∷ c.pbkdf2 password salt password_iterations password_key_length
                                    word_sha256)))))))

-- `encodedHash.split('$')`, with the piece that is being read
unfoldable pub split_at : Text → Text → List Text
split_at piece [] = piece ∷ []
split_at piece (x ∷ xs) =
    let next = split_at [] xs in
    let more = split_at (piece ++ (x ∷ [])) xs in if x == dollar then piece ∷ next else more

-- The check of the pieces, where the fifth and the fourth are texts that are not empty
unfoldable pub verify_pieces : Crypto → Text → List Text → Bool
verify_pieces c password (scheme ∷ digest ∷ iterations ∷ salt ∷ expected ∷ rest) =
    elim (c.integer_of iterations) [
      | none ↦ false
      | some n ↦
          same_text scheme word_pbkdf2
          && (same_text digest word_sha256
              && (not (is_blank_text salt)
                  && (not (is_blank_text expected)
                      && same_text expected
                          (c.pbkdf2 password salt n (c.byte_length expected) digest))))
    ]
verify_pieces c password _ = false

-- A user without a hash, or with an empty one, is never verified.
unfoldable pub verify_password : Crypto → Text → Option Text → Bool
unfolding split_at verify_pieces
verify_password c password none = false
verify_password c password (some []) = false
verify_password c password (some (x ∷ xs)) = verify_pieces c password (split_at [] (x ∷ xs))

abbrev pub NoDollar : Text → Type 0
NoDollar = All (λ x. x ≢ dollar)

-- What Node documents: base64url has no `$`, the text of a key stands for as many bytes as were
-- asked for, and is not empty; the decimal numeral of a number is read as that number.
pub record CryptoLaws (c : Crypto) : Type 0 where
  pub no_dollar : (p s d : Text) (n k : ℕ) → NoDollar (c.pbkdf2 p s n k d)
  pub key_length :
      (p s d : Text) (n : ℕ)
      → (c.byte_length (c.pbkdf2 p s n password_key_length d) ≡ password_key_length)
        × (is_blank_text (c.pbkdf2 p s n password_key_length d) ≡ false)
  pub decimal : c.integer_of iterations_text ≡ some password_iterations

-- A piece that has no `$` is read up to the next one.
split_piece :
    (piece xs ys : Text)
    → NoDollar xs
    → split_at piece (xs ++ (dollar ∷ ys)) ≡ (piece ++ xs) ∷ split_at [] ys
unfolding split_at
split_piece piece [] ys h = ap (λ p. p ∷ split_at [] ys) (sym (append-nil piece))
split_piece piece (x ∷ xs) ys h =
    let rest = split_piece (piece ++ (x ∷ [])) xs ys h.1 in
    ground (arith, h.0, append_assoc piece (x ∷ []) xs)

split_end : (piece xs : Text) → NoDollar xs → split_at piece xs ≡ (piece ++ xs) ∷ []
unfolding split_at
split_end piece [] h = ap (λ p. p ∷ []) (sym (append-nil piece))
split_end piece (x ∷ xs) h =
    let rest = split_end (piece ++ (x ∷ [])) xs h.1 in
    ground (arith, h.0, append_assoc piece (x ∷ []) xs)

split_hash :
    (c : Crypto) (p salt : Text)
    → CryptoLaws c
    → NoDollar salt
    → split_at [] (hash_password c p salt)
      ≡ word_pbkdf2
        ∷ word_sha256
        ∷ iterations_text
        ∷ salt
        ∷ c.pbkdf2 p salt password_iterations password_key_length word_sha256
        ∷ []
unfolding hash_password
split_hash c p salt laws h =
    let key = c.pbkdf2 p salt password_iterations password_key_length word_sha256 in
    let digits = iterations_text ++ (dollar ∷ (salt ++ (dollar ∷ key))) in
    split_piece [] word_pbkdf2 (word_sha256 ++ (dollar ∷ digits)) (ground arith)
    ∙ ap (λ r. word_pbkdf2 ∷ r)
        (split_piece [] word_sha256 digits (ground arith)
          ∙ ap (λ r. word_sha256 ∷ r)
              (split_piece [] iterations_text (salt ++ (dollar ∷ key)) (ground arith)
                ∙ ap (λ r. iterations_text ∷ r)
                    (split_piece [] salt key h
                      ∙ ap (λ r. salt ∷ r)
                          (split_end [] key (
                            laws.no_dollar p salt word_sha256 password_iterations
                              password_key_length)))))

pieces_verify :
    (c : Crypto) (p salt : Text)
    → CryptoLaws c
    → is_blank_text salt ≡ false
    → verify_pieces c p (
        word_pbkdf2
        ∷ word_sha256
        ∷ iterations_text
        ∷ salt
        ∷ c.pbkdf2 p salt password_iterations password_key_length word_sha256
        ∷ [])
      ≡ true
unfolding verify_pieces
pieces_verify c p salt laws filled =
    let (bytes, kept) = laws.key_length p salt word_sha256 password_iterations in
    let same =
      same_text_refl (c.pbkdf2 p salt password_iterations password_key_length word_sha256) in
    let digits = laws.decimal in ground arith

-- A password verifies against its own hash, under any salt that is not empty and has no `$`, where
-- Node's functions do what they document.
pub verify_password-hash_password :
    (c : Crypto) (p salt : Text)
    → CryptoLaws c
    → NoDollar salt
    → is_blank_text salt ≡ false
    → verify_password c p (some (hash_password c p salt)) ≡ true
unfolding verify_password hash_password
verify_password-hash_password c p salt laws h filled =
    ap (verify_pieces c p) (split_hash c p salt laws h) ∙ pieces_verify c p salt laws filled
