-- ===== src/Config/Value/Number/Laws.antt =====
-- What the settings that are numbers can be.
use mkosi.Base.{
  ℕ, zero, suc, ◌≤◌, ◌<◌, ◌≡◌, refl, sym, ◌-◌, ◌⊎◌, inl, inr, Bool, true, not, ◌&&◌, ◌||◌, Option,
  none, some, [], ◌∷◌, ltb, ◌==◌, arith, Bool-cases,
}
use mkosi.Base.Text.{Text, lit, text_eq, text_eq_iff}
use mkosi.Base.Result.{ok}
use mkosi.Config.Value.Number.{
  ℤ, pos, negsuc, int, is_power_of_2, sector_size, config_parse_sector_size, vsock_cid, checked_cid,
  config_parse_vsock_cid, vsock_auto, vsock_hash,
}

abbrev is_sector : ℕ → Bool
is_sector x = x == 512 || x == 1024 || x == 2048 || x == 4096

-- The powers of 2 among `count` numbers, the last of which is `last`, are sector sizes or too small.
abbrev powers_are_sectors : (count last : ℕ) → Bool
powers_are_sectors zero last = true
powers_are_sectors (suc count) last =
    (not (is_power_of_2 last) || ltb last 512 || is_sector last)
    && powers_are_sectors count (last - 1)

sector_below :
    (count last distance : ℕ)
    → powers_are_sectors count last ≡ true
    → distance < count
    → is_power_of_2 (last - distance) ≡ true
    → (ltb (last - distance) 512 || is_sector (last - distance)) ≡ true
sector_below zero last distance h lt p = absurd (omega arith)
sector_below (suc count) last zero h lt p = ground (arith, h, p)
sector_below (suc count) last (suc d) h lt p =
    let shift : (last - 1) - d ≡ last - suc d = omega arith in
    rw (sym shift) (sector_below count (last - 1) d (ground (arith, h)) (omega arith) (rw shift p))

sector_table : powers_are_sectors 4097 4096 ≡ true
unfolding is_power_of_2
sector_table = refl

sector_size-cases :
    (i : Option ℤ) (n : ℕ)
    → sector_size i ≡ ok (some n)
    → (n ≡ 512) ⊎ (n ≡ 1024) ⊎ (n ≡ 2048) ⊎ (n ≡ 4096)
unfolding sector_size
sector_size-cases none n h = cc
sector_size-cases (some (negsuc k)) n h = cc
sector_size-cases (some (pos k)) n h = ground (arith, h, table k)
  where
    table : (k : ℕ) → k ≤ 4096 → is_power_of_2 k ≡ true → (ltb k 512 || is_sector k) ≡ true
    table k b p =
        let here : 4096 - (4096 - k) ≡ k = omega arith in
        rw (sym here) (sector_below 4097 4096 (4096 - k) sector_table (omega arith) (rw here p))

-- A sector size that is accepted is 512, 1024, 2048 or 4096.
pub config_parse_sector_size-cases :
    (value : Option Text) (old : Option ℕ) (n : ℕ)
    → config_parse_sector_size value old ≡ ok (some n)
    → (n ≡ 512) ⊎ (n ≡ 1024) ⊎ (n ≡ 2048) ⊎ (n ≡ 4096)
unfolding config_parse_sector_size
config_parse_sector_size-cases none old n h = cc
config_parse_sector_size-cases (some []) old n h = cc
config_parse_sector_size-cases (some (c ∷ s)) old n h = sector_size-cases (int (c ∷ s)) n h

-- The two constants by name, and the connection IDs that are not well known.
abbrev pub IsCid : Text → ℤ → Type 0
IsCid s cid =
    ((s ≡ lit "auto") × (cid ≡ vsock_auto))
    ⊎ ((s ≡ lit "hash") × (cid ≡ vsock_hash))
    ⊎ ((n : ℕ) × (cid ≡ pos n) × (int s ≡ some (pos n)) × (3 ≤ n) × (n < 0xFFFFFFFF))

checked_cid-in_range :
    (i : Option ℤ) (cid : ℤ)
    → checked_cid i ≡ ok (some cid)
    → (n : ℕ) × (cid ≡ pos n) × (i ≡ some (pos n)) × (3 ≤ n) × (n < 0xFFFFFFFF)
unfolding checked_cid
checked_cid-in_range none cid h = cc
checked_cid-in_range (some (negsuc k)) cid h = cc
checked_cid-in_range (some (pos n)) cid h =
    (n, ground (arith, h), refl, ground (arith, h), ground (arith, h))

vsock_cid-IsCid : (s : Text) (cid : ℤ) → vsock_cid s ≡ ok (some cid) → IsCid s cid
unfolding vsock_cid
vsock_cid-IsCid s cid h = elim (Bool-cases (text_eq s (lit "auto"))) [
  | inl a ↦ inl ((text_eq_iff s (lit "auto")).0 a, cc (rw a at h))
  | inr a ↦ elim (Bool-cases (text_eq s (lit "hash"))) [
    | inl b ↦ inr (inl ((text_eq_iff s (lit "hash")).0 b, cc (rw (a, b) at h)))
    | inr b ↦ inr (inr (checked_cid-in_range (int s) cid (rw (a, b) at h)))
  ]
]

-- A VSock connection ID that is accepted is -1 for "auto", -2 for "hash", or the number that the
-- text says, which is at least 3 and below 0xFFFFFFFF.
pub config_parse_vsock_cid-IsCid :
    (s : Text) (old : Option ℤ) (cid : ℤ)
    → config_parse_vsock_cid (some s) old ≡ ok (some cid)
    → IsCid s cid
unfolding config_parse_vsock_cid
config_parse_vsock_cid-IsCid [] old cid h = cc
config_parse_vsock_cid-IsCid (c ∷ s) old cid h = vsock_cid-IsCid (c ∷ s) cid h
