-- ===== src/HttpServer/Drip.antt =====
-- A peer of the HTTP server (fix_monitor/src/http_server.cpp) that takes one byte at a time.
use fix_mon.Prelude.{
  ℕ, zero, suc, ◌≤◌, ◌<◌, ◌≡◌, refl, ℤ, pos, negsuc, pos_part, ◌++◌, Bytes, take, arith,
}
use fix_mon.HttpServer.Sending.{TakesInOrder}

-- what it sends, and what it has got
abbrev pub Peer : Type 0
Peer = Bytes × Bytes

abbrev pub drip : Bytes → ℤ → Peer → ℤ × Peer
drip bytes (pos zero) c = (pos 0, c)
drip bytes (pos (suc k)) (asks, got) = (pos 1, (asks, got ++ take 1 bytes))
drip bytes (negsuc n) c = (negsuc 0, c)

abbrev pub got : Peer → Bytes
got (asks, bytes) = bytes

abbrev pub recv : ℕ → Peer → Bytes × Peer
recv n (asks, bytes) = (take n asks, (asks, bytes))

drip_takes :
    (bytes : Bytes) (k n : ℕ) (c : Peer)
    → (drip bytes (pos k) c).0 ≡ pos (suc n)
    → (suc n ≤ k) × (got (drip bytes (pos k) c).1 ≡ got c ++ take (suc n) bytes)
drip_takes bytes zero n c e = absurd (ground arith)
drip_takes bytes (suc k) zero c e = (omega arith, refl)
drip_takes bytes (suc k) (suc n) c e = absurd (ground arith)

pub drip-TakesInOrder : TakesInOrder drip got
drip-TakesInOrder = record { takes = drip_takes; keeps = drip_keeps }
  where
    drip_keeps :
        (bytes : Bytes) (k : ℕ) (c : Peer)
        → pos_part (drip bytes (pos k) c).0 ≡ 0
        → got (drip bytes (pos k) c).1 ≡ got c
    drip_keeps bytes zero c e = refl
    drip_keeps bytes (suc k) c e = absurd (omega arith)

pub drip_progress : (bytes : Bytes) (k : ℕ) (c : Peer) → 0 < pos_part (drip bytes (pos (suc k)) c).0
drip_progress bytes k c = omega arith
