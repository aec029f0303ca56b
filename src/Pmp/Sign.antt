-- ===== src/Pmp/Sign.antt =====
-- `svc_sign` of examples/minimal-pmp/main.c: the keyed transform in place, behind its guard.
pub mod Guard
use rp2350_tz_tee.Prelude.{ℕ, zero, suc, ◌+◌, ◌%◌, ◌&&◌, ltb, if◌then◌else◌, bit_xor}
use rp2350_tz_tee.Prelude.Maps.{update}
use rp2350_tz_tee.Prelude.Words.{u8, u32}
use rp2350_tz_tee.Hw.Memory.{Memory}
use rp2350_tz_tee.Pmp.Link.{Link, key, prot_size}

-- `buf[i] ^= key[i % 16]` from index `i`, with `left` rounds to go.
unfoldable pub sign_from : ℕ → ℕ → Link → Memory → ℕ → Memory
sign_from zero i l m buf = m
sign_from (suc left) i l m buf =
    let p = u32 (buf + i) in
    sign_from left (i + 1) l (update m p (u8 (bit_xor (m p) (m (key l + i % 16))))) buf

unfoldable pub svc_sign : Link → Memory → ℕ → ℕ → Memory
svc_sign l m buf len =
    if ltb 64 len
    then m
    else if ltb l.g_prot (u32 (buf + len)) && ltb buf (u32 (l.g_prot + prot_size))
    then m
    else sign_from len 0 l m buf
