-- ===== src/HttpServer/Sending.antt =====
-- `send_all` of fix_monitor/src/http_server.cpp on a connection that takes bytes in their order.
use fix_mon.Prelude.{
  ℕ, zero, suc, ◌+◌, ◌-◌, ◌%◌, ◌^◌, ◌≤◌, ◌<◌, ◌≡◌, refl, sym, ap, ◌∙◌, ℤ, pos, negsuc, pos_part,
  ◌⊎◌, int32, Option, some, [], ◌∷◌, ◌++◌, append_assoc, append-nil, Bytes, length, take, drop, ltb,
  take_whole, Bool-cases, inl, inr, arith,
}
use fix_mon.HttpServer.{offer, send_from, send_all}

-- What the documentation of `send` says: a call that answers a positive number has taken that many
-- of the bytes at the front, and no more than it was offered; any other call has taken none.
pub record TakesInOrder {Conn : Type 0} (send : Bytes → ℤ → Conn → ℤ × Conn)
    (received : Conn → Bytes) : Type 0 where
  pub takes :
      (bytes : Bytes) (k n : ℕ) (c : Conn)
      → (send bytes (pos k) c).0 ≡ pos (suc n)
      → (suc n ≤ k) × (received (send bytes (pos k) c).1 ≡ received c ++ take (suc n) bytes)
  pub keeps :
      (bytes : Bytes) (k : ℕ) (c : Conn)
      → pos_part (send bytes (pos k) c).0 ≡ 0
      → received (send bytes (pos k) c).1 ≡ received c

ℤ-cases : (v : ℤ) → (v ≡ pos 0) ⊎ (((n : ℕ) × (v ≡ negsuc n)) ⊎ ((n : ℕ) × (v ≡ pos (suc n))))
ℤ-cases (pos zero) = inl refl
ℤ-cases (pos (suc n)) = inr (inr (n, refl))
ℤ-cases (negsuc n) = inr (inl (n, refl))

int32_small : (n : ℕ) → n < 2 ^ 31 → int32 (n % 2 ^ 32) ≡ pos n
int32_small n h = ground arith

take_nil : (n : ℕ) → take {A = ℕ} n [] ≡ []
take_nil zero = refl
take_nil (suc n) = refl

take-drop : (s n : ℕ) (xs : Bytes) → take s xs ++ take n (drop s xs) ≡ take (s + n) xs
take-drop zero n xs = ap (λ k. take k xs) (omega arith)
take-drop (suc s) n [] = take_nil n ∙ sym (take_nil (suc s + n))
take-drop (suc s) n (x ∷ xs) =
    let e : suc s + n ≡ suc (s + n) = omega arith in rw e (ap (λ l. x ∷ l) (take-drop s n xs))

-- fewer than 2 ^ 31 bytes are offered as they are counted
offer_lem :
    {Conn : Type 0} (send : Bytes → ℤ → Conn → ℤ × Conn) (bytes : Bytes) (sent : ℕ) (c : Conn)
    → length bytes < 2 ^ 31
    → offer send bytes sent c ≡ send (drop sent bytes) (pos (length bytes - sent)) c
unfolding offer
offer_lem send bytes sent c small =
    ap (λ k. send (drop sent bytes) k c) (int32_small (length bytes - sent) (ground arith))

module _ {Conn : Type 0} (send : Bytes → ℤ → Conn → ℤ × Conn) (received : Conn → Bytes) where
  -- The last call was offered the bytes from `k` on, all that are left and some at least, and took
  -- none: `c` is the connection that it left, and `c'` the one that it was made on.
  abbrev pub Stalled : Bytes → Bytes → ℕ → Conn → Type 0
  Stalled before bytes k c =
      (c' : Conn) × (k < length bytes)
      × (received c' ≡ before ++ take k bytes)
      × (pos_part (send (drop k bytes) (pos (length bytes - k)) c').0 ≡ 0)
      × (c ≡ (send (drop k bytes) (pos (length bytes - k)) c').1)

  -- The loop ends with a connection that has got some of the bytes at the front: all of them,
  -- unless the last call took none.
  abbrev pub Sent : Bytes → Bytes → Option Conn → Type 0
  Sent before bytes o =
      (c : Conn) × (k : ℕ) × (o ≡ some c)
      × (received c ≡ before ++ take k bytes)
      × ((k ≡ length bytes) ⊎ Stalled before bytes k c)

  -- the loop stops where a call took nothing
  stalls :
      (bytes before : Bytes) (sent : ℕ) (c : Conn) {answer : ℤ × Conn}
      → answer ≡ send (drop sent bytes) (pos (length bytes - sent)) c
      → sent < length bytes
      → TakesInOrder send received
      → pos_part answer.0 ≡ 0
      → received c ≡ before ++ take sent bytes
      → Sent before bytes (some answer.1)
  stalls bytes before sent c {answer} a h t z e =
      let none_taken = ap (λ (x : ℤ × Conn). pos_part x.0) (sym a) ∙ z in
      (
        answer.1,
        sent,
        refl,
        ap (λ (x : ℤ × Conn). received x.1) a
            ∙ t.keeps (drop sent bytes) (length bytes - sent) c none_taken
            ∙ e,
        inr (c, h, e, none_taken, ap (λ (x : ℤ × Conn). x.1) a),
      )

  -- what a call has taken follows what is there
  took :
      (bytes before : Bytes) (sent n k : ℕ) (c : Conn) {answer : ℤ × Conn}
      → answer ≡ send (drop sent bytes) (pos k) c
      → TakesInOrder send received
      → answer.0 ≡ pos (suc n)
      → received c ≡ before ++ take sent bytes
      → (suc n ≤ k) × (received answer.1 ≡ before ++ take (sent + suc n) bytes)
  took bytes before sent n k c {answer} a t z e =
      let (le, got) = t.takes (drop sent bytes) k n c (ap (λ (x : ℤ × Conn). x.0) (sym a) ∙ z) in
      (
        le,
        ap (λ (x : ℤ × Conn). received x.1) a
            ∙ got
            ∙ ap (λ (l : Bytes). l ++ take (suc n) (drop sent bytes)) e
            ∙ append_assoc before (take sent bytes) (take (suc n) (drop sent bytes))
            ∙ ap (λ (l : Bytes). before ++ l) (take-drop sent (suc n) bytes),
      )

  send_from-Sent :
      TakesInOrder send received
      → (fuel : ℕ) (bytes : Bytes) (sent : ℕ) (c : Conn) (before : Bytes) → length bytes < 2 ^ 31
      → sent ≤ length bytes
      → length bytes - sent < fuel
      → received c ≡ before ++ take sent bytes
      → Sent before bytes (send_from send fuel bytes sent c)
  unfolding send_from
  send_from-Sent t zero bytes sent c before small h f e = absurd (omega arith)
  send_from-Sent t (suc fuel) bytes sent c before small h f e =
      elim (Bool-cases (ltb sent (length bytes))) [
        | inr done ↦ rw done (c, sent, refl, e, inl (ground arith))
        | inl more ↦
            let a = offer_lem send bytes sent c small in
            let room : sent < length bytes = ground arith in
            elim (ℤ-cases (offer send bytes sent c).0) [
              | inl z ↦ rw (more, z) (stalls bytes before sent c a room t (ap pos_part z) e)
              | inr (inl (n, z)) ↦
                  rw (more, z) (stalls bytes before sent c a room t (ap pos_part z) e)
              | inr (inr (n, z)) ↦
                  let (le, got) = took bytes before sent n (length bytes - sent) c a t z e in
                  let next : (sent + suc n) % 2 ^ 64 ≡ sent + suc n = ground arith in
                  rw (more, z, next)
                    (send_from-Sent t fuel bytes (sent + suc n) (offer send bytes sent c).1 before
                      small (omega arith) (omega arith) got)
            ]
      ]

  -- If `send` takes bytes in their order, then for a text of fewer than 2 ^ 31 bytes the loop ends,
  -- and the peer has got a prefix of the text,
  -- in its order: the whole text, unless the last call of the loop, which was offered all that was
  -- left of the text, took none of it.
  pub send_all-Sent :
      TakesInOrder send received
      → (bytes : Bytes) (c : Conn) → length bytes < 2 ^ 31
      → Sent (received c) bytes (send_all send bytes c)
  unfolding send_all
  send_all-Sent t bytes c small =
      send_from-Sent t (suc (length bytes)) bytes 0 c (received c) small (omega arith) (omega arith)
        (sym (append-nil (received c)))

  stuck :
      ((bytes : Bytes) (k : ℕ) (c : Conn) → 0 < pos_part (send bytes (pos (suc k)) c).0)
      → (rest : Bytes) {m n : ℕ} → m < n
      → (c : Conn) → ¬ (pos_part (send rest (pos (n - m)) c).0 ≡ 0)
  stuck progress rest {m} {n} h c z =
      let e : n - m ≡ suc (n - m - 1) = omega arith in
      omega (
        arith,
        progress rest (n - m - 1) c,
        ap (λ (k : ℕ). pos_part (send rest (pos k) c).0) (sym e) ∙ z,
      )

  -- If `send` takes bytes in their order, and one at least of those that it is offered, the peer
  -- gets the whole of a text of fewer than 2 ^ 31 bytes.
  pub send_all_whole :
      TakesInOrder send received
      → ((bytes : Bytes) (k : ℕ) (c : Conn) → 0 < pos_part (send bytes (pos (suc k)) c).0)
      → (bytes : Bytes) (c : Conn) → length bytes < 2 ^ 31
      → (d : Conn) × (send_all send bytes c ≡ some d) × (received d ≡ received c ++ bytes)
  send_all_whole t progress bytes c small =
      let (d, k, e, got, how) = send_all-Sent t bytes c small in
      elim how [
        | inl all ↦
            (d, e, got ∙ ap (λ (l : Bytes). received c ++ l) (take_whole k bytes (omega arith)))
        | inr (c', more, at, z, last) ↦ absurd (stuck progress (drop k bytes) more c' z)
      ]
