-- ===== src/Whitelist/Addresses.antt =====
-- security/IpWhitelistService.ts: addresses, blocks of addresses and the match between them. A
-- 32-bit number is its bit pattern, whether the source takes it for signed or not.
pub mod Blocks
use Prim.Native.Nat.{bit_and}
use peta_core.Prelude.{
  ℕ, List, Bool, Option, text_eq, [], all, drop, false, if◌then◌else◌, leb, length, nat_beq, none,
  not, some, true, zero, ◌%◌, ◌&&◌, ◌*◌, ◌+◌, ◌-◌, ◌==◌, ◌^◌, ◌∷◌,
}
use peta_core.Prelude.Int.{ℤ, pos, negsuc}
use peta_core.Text.{split_on, starts_with, has_char, parse_int}
use peta_core.Json.{codes, show}

abbrev pub word : ℕ
word = 2 ^ 32

abbrev pub dot : ℕ
dot = b'.'

abbrev pub slash : ℕ
slash = b'/'

-- `if (isNaN(num) || num < 0 || num > 255)`: the number of a part that passes
abbrev pub octet : Option ℤ → Option ℕ
octet (some (pos n)) = if leb n 255 then some n else none
octet _ = none

-- `result = (result << 8) + num`
abbrev pub push_octet : Option ℕ → Option ℕ → Option ℕ
push_octet (some r) (some n) = some ((r * 256 + n) % word)
push_octet _ _ = none

-- `none` where the source throws
abbrev pub four_octets : List (List ℕ) → Option ℕ
four_octets (a ∷ b ∷ c ∷ d ∷ []) =
    push_octet
      (push_octet (push_octet (push_octet (some 0) (octet (parse_int a))) (octet (parse_int b)))
        (octet (parse_int c)))
      (octet (parse_int d))
four_octets _ = none

unfoldable pub ip_to_number : List ℕ → Option ℕ
ip_to_number ip = four_octets (split_on dot ip)

-- `part === num.toString()` for the number that was read
abbrev pub is_shown : List ℕ → Option ℕ → Bool
is_shown part none = false
is_shown part (some n) = part == show n

abbrev pub is_valid_part : List ℕ → Bool
is_valid_part part = is_shown part (octet (parse_int part))

unfoldable pub is_valid_ip : List ℕ → Bool
is_valid_ip ip = nat_beq (length (split_on dot ip)) 4 && all is_valid_part (split_on dot ip)

-- `[ip, bits] = entry.split('/')` of a text with a slash
abbrev pub head_part : List (List ℕ) → List ℕ
head_part [] = []
head_part (p ∷ ps) = p

abbrev pub next_part : List (List ℕ) → List ℕ
next_part [] = []
next_part (p ∷ ps) = head_part ps

unfoldable pub block_network : List ℕ → List ℕ
block_network entry = head_part (split_on slash entry)

unfoldable pub block_bits : List ℕ → Option ℤ
block_bits entry = parse_int (next_part (split_on slash entry))

abbrev pub is_bit_count : Option ℤ → Bool
is_bit_count (some (pos n)) = leb n 32
is_bit_count _ = false

abbrev pub any_address : List ℕ
any_address = codes "0.0.0.0/0"

unfoldable pub is_valid_ip_or_cidr : List ℕ → Bool
unfolding is_valid_ip block_network block_bits
is_valid_ip_or_cidr entry =
    if entry == any_address
    then true
    else if has_char slash entry
    then is_bit_count (block_bits entry) && is_valid_ip (block_network entry)
    else is_valid_ip entry

unfoldable pub normalize_ip : List ℕ → List ℕ
normalize_ip ip =
    if starts_with ip (codes "::ffff:")
    then drop 7 ip
    else if ip == codes "::1"
    then codes "127.0.0.1"
    else ip

-- the count of a shift by `32 - bits`, which is taken modulo 32; NaN counts as 0
abbrev pub shift_of : Option ℤ → ℕ
shift_of none = 0
shift_of (some (pos b)) = (32 - b % 32) % 32
shift_of (some (negsuc n)) = (n + 1) % 32

-- `(0xffffffff << shift) >>> 0`
unfoldable pub mask_of : ℕ → ℕ
mask_of shift = (word - 1) * 2 ^ shift % word

abbrev pub is_zero : Option ℤ → Bool
is_zero (some (pos zero)) = true
is_zero _ = false

abbrev pub same_block : ℕ → Option ℕ → Option ℕ → Bool
same_block mask (some x) (some y) = nat_beq (bit_and x mask) (bit_and y mask)
same_block mask _ _ = false

unfoldable pub is_ip_match : List ℕ → List ℕ → Bool
unfolding normalize_ip ip_to_number block_network block_bits mask_of
is_ip_match ip pattern =
    if not (has_char slash pattern)
    then normalize_ip ip == pattern
    else if is_zero (block_bits pattern)
    then true
    else same_block (mask_of (shift_of (block_bits pattern))) (ip_to_number (normalize_ip ip))
        (ip_to_number (block_network pattern))
