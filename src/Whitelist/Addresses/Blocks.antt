-- ===== src/Whitelist/Addresses/Blocks.antt =====
-- security/IpWhitelistService.ts, isIpMatch: a mask and the leading bits of an address.
use Prim.Native.Nat.{bit_and, bit_and-bitwise, digits}
use peta_core.Prelude.{
  ℕ, text_eq, ap, arith, min, refl, suc, sym, zero, ◌*◌, ◌+◌, ◌/◌, ◌<◌, ◌↔◌, ◌≡◌, ◌≤◌, Bool,
  Bool-cases, inl, inr, le_refl, nat_beq, nat_beq_iff, subst, true, ◌&&◌, ◌-◌, ◌∙◌, List, Option,
  [], eq_of_beq, if◌then◌else◌, list_beq_iff, none, some, ◌==◌, ◌∷◌,
}
use peta_core.Prelude.Int.{ℤ, pos, negsuc}
use peta_core.Whitelist.Addresses.{
  mask_of, word, any_address, block_bits, block_network, dot, four_octets, ip_to_number,
  is_bit_count, is_ip_match, is_valid_ip_or_cidr, is_zero, normalize_ip, push_octet, same_block,
  shift_of, slash,
}
use peta_core.Text.{has_char, parse_int, split_on}

-- A number without its last bits.
unfoldable pub leading : ℕ → ℕ → ℕ
leading zero x = x
leading (suc s) x = leading s (x / 2)

-- the same bits, with zeros in the places of the last ones
cleared : ℕ → ℕ → ℕ
cleared zero x = x
cleared (suc s) x = cleared s (x / 2) * 2

ones : ℕ → ℕ
ones zero = 0
ones (suc k) = ones k * 2 + 1

-- `k` ones before `s` zeros
high : ℕ → ℕ → ℕ
high zero k = ones k
high (suc s) k = high s k * 2

-- 2 to the number of bits
span : ℕ → ℕ
span zero = 1
span (suc k) = span k * 2

-- doubled as often as there are last bits
widen : ℕ → ℕ → ℕ
widen zero m = m
widen (suc s) m = widen s m * 2

cleared-zero : (s : ℕ) → cleared s 0 ≡ 0
unfolding cleared
cleared-zero zero = refl
cleared-zero (suc s) = omega (arith, cleared-zero s)

abbrev masked : ℕ → ℕ → ℕ → ℕ
masked n x m = digits (λ b. zero) min n x m

-- The bitwise and with such a mask clears the last bits, if the number has no more bits than it.
ones-keep : (n k x : ℕ) → x ≤ n → x < span k → masked n x (ones k) ≡ x
unfolding ones span
ones-keep zero k zero h l = refl
ones-keep zero k (suc x) h l = absurd (omega arith)
ones-keep (suc n) k zero h l = refl
ones-keep (suc n) zero (suc x) h l = absurd (omega arith)
ones-keep (suc n) (suc k) (suc x) h l = omega (
  arith,
  ones-keep n k (suc x / 2) (omega arith) (omega arith),
  ap (masked n (suc x / 2)) {x = (ones k * 2 + 1) / 2} {y = ones k} (omega arith),
)

high-clear : (n s k x : ℕ) → x ≤ n → x < widen s (span k) → masked n x (high s k) ≡ cleared s x
unfolding high widen cleared
high-clear n zero k x h l = ones-keep n k x h l
high-clear zero (suc s) k zero h l = sym (cleared-zero (suc s))
high-clear zero (suc s) k (suc x) h l = absurd (omega arith)
high-clear (suc n) (suc s) k zero h l = sym (cleared-zero (suc s))
high-clear (suc n) (suc s) k (suc x) h l = omega (
  arith,
  high-clear n s k (suc x / 2) (omega arith) (omega arith),
  ap (masked n (suc x / 2)) {x = high s k * 2 / 2} {y = high s k} (omega arith),
)

cleared-leading : (s x y : ℕ) → (cleared s x ≡ cleared s y) ↔ (leading s x ≡ leading s y)
unfolding cleared leading
cleared-leading zero x y = (λ e. e, λ e. e)
cleared-leading (suc s) x y =
    let ih = cleared-leading s (x / 2) (y / 2) in
    (λ e. ih.0 (omega arith), λ e. omega (arith, ih.1 e))

-- What holds of each number below a bound, found by trying them.
try_below : (ℕ → Bool) → ℕ → Bool
try_below p zero = true
try_below p (suc n) = p n && try_below p n

tried : (p : ℕ → Bool) (n s : ℕ) → try_below p n ≡ true → s < n → p s ≡ true
unfolding try_below
tried p zero s h l = absurd (omega arith)
tried p (suc n) s h l = elim (Bool-cases (nat_beq s n)) [
  | inl e ↦ subst (λ t. p t ≡ true) (sym ((nat_beq_iff s n).0 e)) (ground arith)
  | inr e ↦ tried p n s (ground arith) (ground arith)
]

abbrev fits : ℕ → Bool
fits s = nat_beq (mask_of s) (high s (32 - s)) && nat_beq (widen s (span (32 - s))) word

all_fit : try_below fits 32 ≡ true
unfolding try_below mask_of high ones span widen
all_fit = refl

fits-eq : (s : ℕ) → fits s ≡ true → (mask_of s ≡ high s (32 - s)) × (widen s (span (32 - s)) ≡ word)
fits-eq s h = (ground arith, ground arith)

-- The bitwise and of two addresses with a mask agree when their leading bits do.
mask-leading :
    (s x y : ℕ)
    → s < 32
    → x < word
    → y < word
    → (nat_beq (bit_and x (mask_of s)) (bit_and y (mask_of s)) ≡ true) ↔ (leading s x ≡ leading s y)
mask-leading s x y l lx ly =
    let f = fits-eq s (tried fits 32 s all_fit l) in
    let clear : (z : ℕ) → z < word → bit_and z (mask_of s) ≡ cleared s z = λ z lz.
      ap (bit_and z) f.0
      ∙ (λ i. bit_and-bitwise z (high s (32 - s)) i)
      ∙ high-clear z s (32 - s) z (le_refl z) (omega (arith, f.1)) in
    (
      λ e. (cleared-leading s x y).0 (sym (clear x lx) ∙ (nat_beq_iff _ _).0 e ∙ clear y ly),
      λ e. (nat_beq_iff _ _).1 (clear x lx ∙ (cleared-leading s x y).1 e ∙ sym (clear y ly)),
    )

push_octet-lt : (r n : Option ℕ) (x : ℕ) → push_octet r n ≡ some x → x < word
push_octet-lt none n x h = cc
push_octet-lt (some r) none x h = cc
push_octet-lt (some r) (some n) x h = ground arith

ip_to_number-lt : (ip : List ℕ) (x : ℕ) → ip_to_number ip ≡ some x → x < word
unfolding ip_to_number
ip_to_number-lt ip x h = octets-lt (split_on dot ip) h
  where
    octets-lt : (ps : List (List ℕ)) → four_octets ps ≡ some x → x < word
    octets-lt (a ∷ b ∷ c ∷ d ∷ []) k = push_octet-lt _ _ x k
    octets-lt [] k = cc
    octets-lt (a ∷ []) k = cc
    octets-lt (a ∷ b ∷ []) k = cc
    octets-lt (a ∷ b ∷ c ∷ []) k = cc
    octets-lt (a ∷ b ∷ c ∷ d ∷ e ∷ ps) k = cc

-- What a block of so many bits is to mean: its network and the address are addresses, and the
-- first bits of the two are the same.
abbrev pub InBlock : Option ℕ → Option ℕ → ℕ → Type 0
InBlock (some x) (some y) n = leading (32 - n) x ≡ leading (32 - n) y
InBlock _ _ n = ⊥

abbrev pub Meets : List ℕ → List ℕ → Option ℤ → Type 0
Meets ip entry (some (pos zero)) = Unit
Meets ip entry (some (pos (suc n))) =
    InBlock (ip_to_number (normalize_ip ip)) (ip_to_number (block_network entry)) (suc n)
Meets ip entry _ = ⊥

same_block-InBlock :
    (n : ℕ) (a b : Option ℕ)
    → suc n ≤ 32
    → ((x : ℕ) → a ≡ some x → x < word)
    → ((y : ℕ) → b ≡ some y → y < word)
    → (same_block (mask_of (shift_of (some (pos (suc n))))) a b ≡ true) ↔ InBlock a b (suc n)
same_block-InBlock n (some x) (some y) l p q =
    subst
      (λ s.
        (nat_beq (bit_and x (mask_of s)) (bit_and y (mask_of s)) ≡ true)
        ↔ (leading (32 - suc n) x ≡ leading (32 - suc n) y))
      {x = 32 - suc n} {y = shift_of (some (pos (suc n)))} (omega arith)
      (mask-leading (32 - suc n) x y (omega arith) (p x refl) (q y refl))
same_block-InBlock n none b l p q = (λ h. cc, λ h. absurd h)
same_block-InBlock n (some x) none l p q = (λ h. cc, λ h. absurd h)

any_bits : is_bit_count (block_bits any_address) ≡ true
unfolding block_bits split_on parse_int
any_bits = refl

valid_bits :
    (entry : List ℕ)
    → has_char slash entry ≡ true
    → is_valid_ip_or_cidr entry ≡ true
    → is_bit_count (block_bits entry) ≡ true
unfolding is_valid_ip_or_cidr
valid_bits entry h v = elim (Bool-cases (entry == any_address)) [
  | inl e ↦
      subst (λ t. is_bit_count (block_bits t) ≡ true) (sym (eq_of_beq entry any_address e)) any_bits
  | inr e ↦ ground arith
]

-- An entry that the checks of its format let in is met by an address exactly if it is the address,
-- for an entry without a slash, or a block that the address is in; a block of no bits has them all.
pub is_ip_match-Meets :
    (ip entry : List ℕ)
    → is_valid_ip_or_cidr entry ≡ true
    → (is_ip_match ip entry ≡ true) ↔ (
        if has_char slash entry then Meets ip entry (block_bits entry) else normalize_ip ip ≡ entry)
unfolding is_ip_match
is_ip_match-Meets ip entry v = elim (Bool-cases (has_char slash entry)) [
  | inr e ↦ rw e (list_beq_iff (normalize_ip ip) entry)
  | inl e ↦ rw e (block_match (block_bits entry) (valid_bits entry e v))
]
  where
    block_match :
        (bits : Option ℤ)
        → is_bit_count bits ≡ true
        → ((if is_zero bits
              then true
              else same_block
                  (mask_of (shift_of bits))
                  (ip_to_number (normalize_ip ip))
                  (ip_to_number (block_network entry)))
            ≡ true)
          ↔ Meets ip entry bits
    block_match (some (pos zero)) k = (λ h. tt, λ h. refl)
    block_match (some (pos (suc n))) k =
        same_block-InBlock n (ip_to_number (normalize_ip ip)) (ip_to_number (block_network entry))
          (ground arith) (ip_to_number-lt (normalize_ip ip)) (ip_to_number-lt (block_network entry))
    block_match none k = cc
    block_match (some (negsuc n)) k = cc
