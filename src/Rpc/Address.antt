-- ===== src/Rpc/Address.antt =====
-- `RpcAddress`, `AddressSpace` and `SpecialTransaction` (rsbinder/src/rpc/address.rs).
use rsbinder.Prelude.{
  ℕ, ◌+◌, ◌%◌, ◌^◌, ◌<◌, ◌≡◌, ◌≢◌, ◌↔◌, ap, ◌∙◌, sym, Bool, true, false, List, ◌∷◌, ◌++◌, inl, inr,
  Bool-cases, Option, none, some, arith, Eq, ◌==◌, if◌then◌else◌, length, replicate, All,
  All-append, length-append, take-append_left, drop-append_left, take, drop,
}
use rsbinder.Prelude.Bytes.{
  IsByte, le_bytes, from_le, beq_bytes, beq_bytes_iff, length-le_bytes, le_bytes-IsByte,
  from_le-le_bytes,
}

abbrev pub rpc_addr_len : ℕ
rpc_addr_len = 32

pub record RpcAddress : Type 0 where
  pub bytes : List ℕ

-- `[u8; RPC_ADDR_LEN]`.
pub record IsAddress (a : RpcAddress) : Type 0 where
  pub sized : length a.bytes ≡ rpc_addr_len
  pub wide : All IsByte a.bytes

abbrev pub beq_addr : RpcAddress → RpcAddress → Bool
beq_addr a b = beq_bytes a.bytes b.bytes

pub beq_addr_iff : (a b : RpcAddress) → (beq_addr a b ≡ true) ↔ (a ≡ b)
beq_addr_iff a b = ground (arith, beq_bytes_iff a.bytes b.bytes)

instance abbrev pub addr_eq : Eq RpcAddress
addr_eq = record { beq = beq_addr; beq_iff = beq_addr_iff }

pub data AddressSpace : Type 0 where
  initiator acceptor : AddressSpace

unfoldable pub tag : AddressSpace → ℕ
tag initiator = 1
tag acceptor = 2

unfoldable pub zero_addr : RpcAddress
zero_addr = record { bytes = replicate rpc_addr_len 0 }

unfoldable pub is_zero : RpcAddress → Bool
is_zero a = beq_bytes a.bytes (replicate rpc_addr_len 0)

-- `unique` bumps the session's counter and returns it with the address that it names.
unfoldable pub unique : ℕ → AddressSpace → ℕ × RpcAddress
unique counter space =
    let counter' = (counter + 1) % 2 ^ 64 in
    (counter', record { bytes = le_bytes 8 counter' ++ (tag space ∷ replicate 23 0) })

pub data SpecialTransaction : Type 0 where
  get_root get_max_threads get_session_id get_fd_mode : SpecialTransaction

pub code : SpecialTransaction → ℕ
code get_root = 0
code get_max_threads = 1
code get_session_id = 2
code get_fd_mode = 3

pub from_code : ℕ → Option SpecialTransaction
from_code c =
    if c == 0
    then some get_root
    else if c == 1
    then some get_max_threads
    else if c == 2
    then some get_session_id
    else if c == 3
    then some get_fd_mode
    else none

-- A code names a special transaction exactly when it is that transaction's own code.
pub from_code-code : (c : ℕ) (s : SpecialTransaction) → (from_code c ≡ some s) ↔ (c ≡ code s)
unfolding from_code code
from_code-code c get_root = ground arith
from_code-code c get_max_threads = ground arith
from_code-code c get_session_id = ground arith
from_code-code c get_fd_mode = ground arith

pub unique-IsAddress : (c : ℕ) (s : AddressSpace) → IsAddress (unique c s).1
unfolding unique
unique-IsAddress c s = record {
  sized =
      omega (arith, length-append (le_bytes 8 c') (tag s ∷ replicate 23 0), length-le_bytes 8 c');
  wide = All-append IsByte (le_bytes 8 c') _ (le_bytes-IsByte 8 c') (tag_lt s, omega arith);
}
  where
    c' : ℕ
    c' = (c + 1) % 2 ^ 64

    tag_lt : (t : AddressSpace) → tag t < 256
    tag_lt initiator = unfold tag in omega arith
    tag_lt acceptor = unfold tag in omega arith

tag-injective : (s t : AddressSpace) → tag s ≡ tag t → s ≡ t
unfolding tag
tag-injective s t h = ground arith

-- Two calls of `unique`, on counters of 64 bits, give one address only when they come from one role and one counter.
pub unique-injective :
    (c d : ℕ) (s t : AddressSpace)
    → c < 2 ^ 64
    → d < 2 ^ 64
    → (unique c s).1 ≡ (unique d t).1
    → (c ≡ d) × (s ≡ t)
unfolding unique
unique-injective c d s t hc hd h = (counters, tag-injective s t tags)
  where
    c' : ℕ
    c' = (c + 1) % 2 ^ 64

    d' : ℕ
    d' = (d + 1) % 2 ^ 64

    all_bytes :
        le_bytes 8 c' ++ (tag s ∷ replicate 23 0) ≡ le_bytes 8 d' ++ (tag t ∷ replicate 23 0)
    all_bytes = ap (λ (a : RpcAddress). a.bytes) h

    low : le_bytes 8 c' ≡ le_bytes 8 d'
    low =
        sym (take-append_left (le_bytes 8 c') _ (length-le_bytes 8 c'))
        ∙ ap (take 8) all_bytes
        ∙ take-append_left (le_bytes 8 d') _ (length-le_bytes 8 d')

    high : tag s ∷ replicate 23 0 ≡ tag t ∷ replicate 23 0
    high =
        sym (drop-append_left (le_bytes 8 c') _ (length-le_bytes 8 c'))
        ∙ ap (drop 8) all_bytes
        ∙ drop-append_left (le_bytes 8 d') _ (length-le_bytes 8 d')

    tags : tag s ≡ tag t
    tags = cc high

    counters : c ≡ d
    counters = omega (
      arith,
      ap from_le low,
      from_le-le_bytes 8 c' (omega arith),
      from_le-le_bytes 8 d' (omega arith),
    )

-- No call of `unique` gives the reserved address.
pub unique-ne-zero : (c : ℕ) (s : AddressSpace) → is_zero (unique c s).1 ≡ false
unfolding unique is_zero
unique-ne-zero c s = elim (Bool-cases (is_zero (unique c s).1)) [
  | inr h ↦ h
  | inl h ↦ absurd (tag_pos s (heads h))
]
  where
    c' : ℕ
    c' = (c + 1) % 2 ^ 64

    tag_pos : (t : AddressSpace) → tag t ≢ 0
    tag_pos initiator = unfold tag in omega arith
    tag_pos acceptor = unfold tag in omega arith

    zeros : is_zero (unique c s).1 ≡ true → (unique c s).1.bytes ≡ replicate rpc_addr_len 0
    zeros h = (beq_bytes_iff _ _).0 h

    tails : is_zero (unique c s).1 ≡ true → tag s ∷ replicate 23 0 ≡ replicate 24 0
    tails h =
        sym (drop-append_left (le_bytes 8 c') _ (length-le_bytes 8 c')) ∙ ap (drop 8) (zeros h)

    heads : is_zero (unique c s).1 ≡ true → tag s ≡ 0
    heads h = cc (tails h)
