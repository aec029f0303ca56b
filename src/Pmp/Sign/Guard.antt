-- ===== src/Pmp/Sign/Guard.antt =====
-- The guard of `svc_sign` keeps the transform off the protected region, whatever pointer and
-- length U-mode passes.
use rp2350_tz_tee.Prelude.{
  ℕ, zero, suc, ◌+◌, ◌-◌, ◌%◌, ◌^◌, ◌≤◌, ◌<◌, ◌≡◌, ◌⊎◌, ◌&&◌, ltb, leb, arith,
}
use rp2350_tz_tee.Prelude.{if◌then◌else◌, bit_xor, false, inl, inr, Bool-cases}
use rp2350_tz_tee.Prelude.Maps.{update}
use rp2350_tz_tee.Prelude.Words.{u8, u32}
use rp2350_tz_tee.Hw.Memory.{Memory}
use rp2350_tz_tee.Pmp.Link.{Link, key, prot_size, IsLinked}
use rp2350_tz_tee.Pmp.Sign.{sign_from, svc_sign}

-- How far `a` lies behind `p`, round the end of the address space.
abbrev pub offset : ℕ → ℕ → ℕ
offset p a = u32 (a + 2 ^ 32 - p)

abbrev pub IsProtected : Link → ℕ → Type 0
IsProtected l a = (l.g_prot ≤ a) × (a < l.g_prot + prot_size)

-- The first `n` bytes of the buffer miss the protected region.
abbrev pub IsClear : Link → ℕ → ℕ → Type 0
IsClear l buf n = (a : ℕ) → IsProtected l a → n ≤ offset buf a

sign_from_at :
    (left i : ℕ) (l : Link) (m : Memory) (buf n a : ℕ)
    → IsLinked l
    → IsClear l buf n
    → i + left ≤ n
    → n ≤ 2 ^ 32
    → buf < 2 ^ 32
    → a < 2 ^ 32
    → sign_from left i l m buf a ≡ (
        if leb i (offset buf a) && ltb (offset buf a) (i + left)
        then u8 (bit_xor (m a) (m (key l + offset buf a % 16)))
        else m a)
unfolding sign_from
sign_from_at zero i l m buf n a linked clear h g k e = ground arith
sign_from_at (suc left) i l m buf n a linked clear h g k e =
    let p = u32 (buf + i) in
    ground (
      arith,
      sign_from_at left (i + 1) l (update m p (u8 (bit_xor (m p) (m (key l + i % 16))))) buf n a,
      clear (key l + offset buf a % 16),
    )

-- A request passes the guard exactly when it is short and misses the protected region.
accepted-IsClear :
    (l : Link) (buf len : ℕ)
    → IsLinked l
    → buf < 2 ^ 32
    → len ≤ 64
    → (ltb l.g_prot (u32 (buf + len)) && ltb buf (u32 (l.g_prot + prot_size))) ≡ false
    → IsClear l buf len
accepted-IsClear l buf len linked h g e a prot = ground arith

-- Either nothing is done, or the request is short, misses the region, and the loop runs.
svc_sign_cases :
    (l : Link) (m : Memory) (buf len : ℕ)
    → IsLinked l
    → buf < 2 ^ 32
    → (svc_sign l m buf len ≡ m)
      ⊎ ((len ≤ 64) × IsClear l buf len × (svc_sign l m buf len ≡ sign_from len 0 l m buf))
unfolding svc_sign
svc_sign_cases l m buf len linked h = elim (Bool-cases (ltb 64 len)) [
  | inl long ↦ inl (rw long)
  | inr short ↦
      elim (Bool-cases (ltb l.g_prot (u32 (buf + len)) && ltb buf (u32 (l.g_prot + prot_size)))) [
        | inl over ↦ inl (rw (short, over))
        | inr pass ↦ inr (
          ground arith,
          accepted-IsClear l buf len linked h (ground arith) pass,
          rw (short, pass),
        )
      ]
]

-- `svc_sign` transforms exactly the bytes of the buffer with the key if the length is at most 64
-- and no byte of the buffer lies in the protected region, round the end of the address space
-- included; otherwise, for a buffer that overlaps the region or is longer, it changes nothing.
pub svc_sign_at :
    (l : Link) (m : Memory) (buf len a : ℕ)
    → IsLinked l
    → buf < 2 ^ 32
    → a < 2 ^ 32
    → (len ≤ 64
        → IsClear l buf len
        → svc_sign l m buf len a ≡ (
            if ltb (offset buf a) len
            then u8 (bit_xor (m a) (m (key l + offset buf a % 16)))
            else m a))
      × (¬ IsClear l buf len → svc_sign l m buf len a ≡ m a)
      × (64 < len → svc_sign l m buf len a ≡ m a)
unfolding svc_sign
svc_sign_at l m buf len a linked h g = (
  (λ short clear.
      ground (arith, sign_from_at len 0 l m buf len a linked clear, clear l.g_prot, clear buf)),
  (λ hit. elim (svc_sign_cases l m buf len linked h) [
    | inl e ↦ rw e
    | inr done ↦ absurd (hit done.1)
  ]),
  (λ long. ground arith),
)

-- `svc_sign` changes no byte of the protected region, whatever 32-bit pointer and length it is
-- given.
pub svc_sign-keeps_protected :
    (l : Link) (m : Memory) (buf len a : ℕ)
    → IsLinked l
    → buf < 2 ^ 32
    → IsProtected l a
    → svc_sign l m buf len a ≡ m a
svc_sign-keeps_protected l m buf len a linked h prot = elim (svc_sign_cases l m buf len linked h) [
  | inl e ↦ rw e
  | inr done ↦
      rw (done.2) (ground (arith, sign_from_at len 0 l m buf len a linked (done.1), done.1 a prot))
]

-- Off the buffer nothing changes.
pub svc_sign_off :
    (l : Link) (m : Memory) (buf len a : ℕ)
    → IsLinked l
    → buf < 2 ^ 32
    → a < 2 ^ 32
    → len ≤ offset buf a
    → svc_sign l m buf len a ≡ m a
svc_sign_off l m buf len a linked h g off = elim (svc_sign_cases l m buf len linked h) [
  | inl e ↦ rw e
  | inr done ↦ rw (done.2) (ground (arith, sign_from_at len 0 l m buf len a linked (done.1)))
]
