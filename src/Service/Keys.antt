-- ===== src/Service/Keys.antt =====
-- The text of a timer's key: AddToExpiryTimer in cache.go writes it, and parseExpiredKey in
-- queue_service.go splits it. A text is the list of its bytes.
use team_10_queue_serivce.Base.{
  ℕ, ◌≡◌, refl, ap, subst, false, List, [], ◌∷◌, ◌++◌, Option, none, some, arith, ◌==◌,
  if◌then◌else◌, contains, inl, inr, Bool-cases, ==_iff,
}

-- ':'
abbrev colon : ℕ
colon = 58

-- The member of the sorted set: the product, ':' and the user.
abbrev pub expiry_key : List ℕ → List ℕ → List ℕ
expiry_key product user = product ++ colon ∷ user

abbrev in_product : ℕ → Option (List ℕ × List ℕ) → Option (List ℕ × List ℕ)
in_product byte none = none
in_product byte (some (product, user)) = some (byte ∷ product, user)

-- The first ':' splits the key.
unfoldable pub parse_expired_key : List ℕ → Option (List ℕ × List ℕ)
parse_expired_key [] = none
parse_expired_key (byte ∷ key) =
    let rest = parse_expired_key key in
    if byte == colon then some ([], key) else in_product byte rest

-- What was written is read back, if the product has no ':'.
pub parse_expired_key-expiry_key :
    (product user : List ℕ)
    → contains colon product ≡ false
    → parse_expired_key (expiry_key product user) ≡ some (product, user)
unfolding parse_expired_key
parse_expired_key-expiry_key [] user h = refl
parse_expired_key-expiry_key (byte ∷ product) user h =
    ground (arith, parse_expired_key-expiry_key product user)

-- How a key is split.
abbrev Splits : List ℕ → Option (List ℕ × List ℕ) → Type 0
Splits key none = Unit
Splits key (some (product, user)) =
    (key ≡ expiry_key product user) × (contains colon product ≡ false)

in_product-Splits :
    (byte : ℕ) (key : List ℕ) (o : Option (List ℕ × List ℕ))
    → (byte == colon) ≡ false
    → Splits key o
    → Splits (byte ∷ key) (in_product byte o)
in_product-Splits byte key none n h = tt
in_product-Splits byte key (some (product, user)) n h = (ap (λ k. byte ∷ k) h.0, rw n h.1)

parse_expired_key-Splits : (key : List ℕ) → Splits key (parse_expired_key key)
unfolding parse_expired_key
parse_expired_key-Splits [] = tt
parse_expired_key-Splits (byte ∷ key) = elim (Bool-cases (byte == colon)) [
  | inl e ↦ rw e (ap (λ b. b ∷ key) ((==_iff byte colon).0 e), refl)
  | inr e ↦
      rw e (in_product-Splits byte key (parse_expired_key key) e (parse_expired_key-Splits key))
]

-- A key that is split is the text of the two parts with ':' between them, and the product has no ':'.
pub parse_expired_key-parts :
    (key product user : List ℕ)
    → parse_expired_key key ≡ some (product, user)
    → (key ≡ expiry_key product user) × (contains colon product ≡ false)
parse_expired_key-parts key product user h = subst (Splits key) h (parse_expired_key-Splits key)
