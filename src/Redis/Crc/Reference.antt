-- ===== src/Redis/Crc/Reference.antt =====
-- The CRC-16 that redis cluster hashes keys by, bit by bit (polynomial 0x1021), and the table
-- of ChannelPool::crc16 (src/frame/client/redis/channel_pool.h) as its values on single bytes.
use Prim.Native.Nat.{bit_xor}
use mathlib.Core.Path.{ap₂}
use graphize.Common.{
  ℕ, zero, suc, ◌+◌, ◌*◌, ◌/◌, ◌%◌, ◌<◌, ◌≡◌, refl, sym, ap, subst, ◌∙◌, arith, Bool, true, ◌&&◌,
  ltb, ◌==◌, ==_iff, if◌then◌else◌, List, [], ◌∷◌, get_or,
}
use graphize.Redis.Crc.{crc16tab, crc16_step, crc16, crc16_from, sign_extend}
use graphize.Redis.Crc.Xor.{bit_xor_fields, bit_xor-lt, bit_xor-zero}

-- One bit: the register goes left, and the bit that falls out feeds the polynomial back.
pub shift : ℕ → ℕ
shift x = if ltb x 32768 then x * 2 else bit_xor (x * 2 % 65536) 0x1021

pub shift8 : ℕ → ℕ
unfolding shift
shift8 x = shift (shift (shift (shift (shift (shift (shift (shift x)))))))

-- A test of each number below a bound, and what it says of one of them.
upto : ℕ → (ℕ → Bool) → Bool
upto zero test = true
upto (suc last) test = let others = upto last test in others && test last

upto_holds :
    (bound : ℕ) (test : ℕ → Bool) (k : ℕ) → upto bound test ≡ true → k < bound → test k ≡ true
unfolding upto
upto_holds zero test k passed below = absurd (omega (arith, below))
upto_holds (suc last) test k passed below = ground (arith, below, passed, upto_holds last test k)

abbrev row : ℕ → Bool
row hi = upto 256 (λ lo. shift8 (hi * 256 + lo) == bit_xor (lo * 256) (get_or crc16tab hi 0))

-- All rows at once: what eight bits of the reference do to every value of the register.
table : upto 256 row ≡ true
unfolding upto shift8 crc16tab
table = refl

shift8_table :
    (hi lo : ℕ)
    → hi < 256
    → lo < 256
    → shift8 (hi * 256 + lo) ≡ bit_xor (lo * 256) (get_or crc16tab hi 0)
shift8_table hi lo h l = (==_iff _ _).0 (
    upto_holds 256 (λ lo. shift8 (hi * 256 + lo) == bit_xor (lo * 256) (get_or crc16tab hi 0)) lo
      (upto_holds 256 row hi table h) l)

small : upto 256 (λ hi. ltb (get_or crc16tab hi 0) 65536) ≡ true
unfolding upto crc16tab
small = refl

crc16tab-lt : (i : ℕ) → i < 256 → get_or crc16tab i 0 < 65536
crc16tab-lt i h =
    let found = upto_holds 256 (λ hi. ltb (get_or crc16tab hi 0) 65536) i small h in ground arith

-- The reference: a byte is added at the top of the register, and eight bits are shifted out.
pub reference_step : ℕ → ℕ → ℕ
unfolding shift8
reference_step crc b = shift8 (bit_xor crc (b * 256))

pub reference_from : ℕ → List ℕ → ℕ
unfolding reference_step
reference_from crc [] = crc
reference_from crc (b ∷ buf) = reference_from (reference_step crc b) buf

-- The index into the table does not depend on whether `char` is signed.
index_byte : (hi b : ℕ) → hi < 256 → b < 256 → bit_xor hi (sign_extend b) % 256 ≡ bit_xor hi b
unfolding sign_extend
index_byte hi b h l = ground (arith, bit_xor_fields 8 0 0xffffff hi b h l, bit_xor-lt 8 hi b h l)

-- In every step the register stays within 16 bits.
crc16_step-lt : (crc b : ℕ) → crc16_step crc b < 65536
unfolding crc16_step
crc16_step-lt crc b = omega arith

-- The register in front of the byte's eight shifts.
add_byte : (crc b : ℕ) → bit_xor crc (b * 256) ≡ bit_xor (crc / 256) b * 256 + crc % 256
add_byte crc b =
    ap₂ bit_xor (omega arith) (omega arith)
    ∙ bit_xor_fields 8 (crc / 256) b (crc % 256) 0 (omega arith) (omega arith)
    ∙ omega (arith, bit_xor-zero (crc % 256))

-- `crc << 8` kept in 16 bits is the low byte alone.
drop_high : (crc t : ℕ) → t < 65536 → bit_xor (crc * 256) t % 65536 ≡ bit_xor (crc % 256 * 256) t
drop_high crc t h =
    let split : bit_xor (crc * 256) t
        ≡ bit_xor (crc / 256) 0 * 65536 + bit_xor (crc % 256 * 256) t =
      ap₂ bit_xor (omega arith) (omega arith)
      ∙ bit_xor_fields 16 (crc / 256) 0 (crc % 256 * 256) t (omega arith) h in
    omega (arith, split, bit_xor-lt 16 (crc % 256 * 256) t (omega arith) h)

crc16_step-eq-reference :
    (crc b : ℕ) → crc < 65536 → b < 256 → crc16_step crc b ≡ reference_step crc b
unfolding crc16_step reference_step
crc16_step-eq-reference crc b h l =
    let i = bit_xor (crc / 256) b in
    let fits : i < 256 = bit_xor-lt 8 (crc / 256) b (omega arith) l in
    ap (λ (k : ℕ). bit_xor (crc * 256) (get_or crc16tab k 0) % 65536)
      (index_byte (crc / 256) b (omega arith) l)
    ∙ drop_high crc (get_or crc16tab i 0) (crc16tab-lt i fits)
    ∙ sym (shift8_table i (crc % 256) fits (omega arith))
    ∙ ap shift8 (sym (add_byte crc b))

abbrev pub IsBytes : List ℕ → Type 0
IsBytes [] = Unit {0}
IsBytes (b ∷ buf) = (b < 256) × IsBytes buf

crc16_from-eq-reference :
    (buf : List ℕ) (crc : ℕ)
    → IsBytes buf
    → crc < 65536
    → crc16_from crc buf ≡ reference_from crc buf
unfolding crc16_from reference_from
crc16_from-eq-reference [] crc h l = refl
crc16_from-eq-reference (b ∷ buf) crc h l =
    ap (λ c. crc16_from c buf) (crc16_step-eq-reference crc b l h.0)
    ∙ crc16_from-eq-reference buf (reference_step crc b) h.1
        (subst (λ c. c < 65536) (crc16_step-eq-reference crc b l h.0) (crc16_step-lt crc b))

-- The checksum by the table, computed on signed characters, is the CRC-16 of the bytes: the register
-- starts at 0, each byte is added at its top, and each of eight shifts feeds back 0x1021.
pub crc16-eq-reference : (buf : List ℕ) → IsBytes buf → crc16 buf ≡ reference_from 0 buf
unfolding crc16
crc16-eq-reference buf h = crc16_from-eq-reference buf 0 h (omega arith)

crc16_from-lt : (buf : List ℕ) (crc : ℕ) → crc < 65536 → crc16_from crc buf < 65536
unfolding crc16_from
crc16_from-lt [] crc h = h
crc16_from-lt (b ∷ buf) crc h = crc16_from-lt buf (crc16_step crc b) (crc16_step-lt crc b)

-- The checksum fits in 16 bits.
pub crc16-lt : (buf : List ℕ) → crc16 buf < 65536
unfolding crc16
crc16-lt buf = crc16_from-lt buf 0 (omega arith)
