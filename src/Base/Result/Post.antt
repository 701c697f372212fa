-- ===== src/Base/Result/Post.antt =====
-- What holds of a result if there is one.
use mkosi.Base.{◌≡◌, refl, sym, Bool, true, false, if◌then◌else◌}
use mkosi.Base.Result.{Error, Result, failed, ok, ◌>>=◌}

-- The call raises, or what it returns satisfies the predicate.
pub data Post {ℓ κ} {T : Type ℓ} (P : T → Type κ) : Result T → Type (ℓ ⊔ κ) where
  raises : {e : Error} → Post P (failed e)
  returns : {t : T} → P t → Post P (ok t)

pub Post-ok {ℓ κ} : {T : Type ℓ} (P : T → Type κ) {r : Result T} {t : T} → Post P r → r ≡ ok t → P t
Post-ok P raises e = cc e
Post-ok P (returns p) e = rw (sym (value e)) p
  where
    value : {T : Type ℓ} {a b : T} → ok a ≡ ok b → a ≡ b
    value q = cc q

pub bind-Post {ℓ κ m n} :
    {T : Type ℓ} {U : Type m} {P : T → Type κ} {Q : U → Type n} {r : Result T} {f : T → Result U}
    → Post P r
    → ((t : T) → P t → Post Q (f t))
    → Post Q (r >>= f)
bind-Post raises k = raises
bind-Post (returns {t} p) k = k t p

pub if-Post {ℓ κ} :
    {T : Type ℓ} {P : T → Type κ} (b : Bool) {r q : Result T}
    → Post P r
    → Post P q
    → Post P (if b then r else q)
if-Post true h k = h
if-Post false h k = k

-- What a call returns is what it returns.
pub own-Post {ℓ} : {T : Type ℓ} (r : Result T) → Post (λ t. r ≡ ok t) r
own-Post (failed e) = raises
own-Post (ok t) = returns refl

pub map-Post {ℓ κ m} :
    {T : Type ℓ} {P : T → Type κ} {Q : T → Type m} {r : Result T}
    → ((t : T) → P t → Q t)
    → Post P r
    → Post Q r
map-Post f raises = raises
map-Post f (returns {t} p) = returns (f t p)

pub both-Post {ℓ κ m} :
    {T : Type ℓ} {P : T → Type κ} {Q : T → Type m} {r : Result T}
    → Post P r
    → Post Q r
    → Post (λ t. P t × Q t) r
both-Post raises q = raises
both-Post (returns p) q = returns (p, Post-ok _ q refl)
