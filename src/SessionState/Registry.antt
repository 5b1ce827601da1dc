-- ===== src/SessionState/Registry.antt =====
-- The map of sessions of fix_monitor/src/session_state.cpp, over any run of its methods.
use fix_mon.Prelude.{
  ℕ, suc, ◌<◌, ℤ, pos, ◌≡◌, refl, ◌∙◌, sym, ap, false, if◌then◌else◌, some, List, [], ◌∷◌, All,
  Bytes, eq_text, eq_text_iff, ◌≢◌, arith,
}
use fix_mon.Prelude.Dict
use fix_mon.Event.{Event}
use fix_mon.SessionState.Snapshot.{SessionSnapshot, fresh}
use fix_mon.SessionState.Apply.{apply_to}
use fix_mon.SessionState.Clocks.{apply_to_clock}
use fix_mon.SessionState.Staleness.{evaluate_keeps}
use fix_mon.SessionState.{
  SessionRegistry, new_registry, register_session, session_of, apply, evaluate, evaluate_all,
  evaluate_staleness, heartbeat_or_default,
}

-- an entry of the map: filed under its own id, with a heartbeat
abbrev pub IsEntry : Bytes × SessionSnapshot → Type 0
IsEntry (k, s) = (s.session_id ≡ k) × (0 < s.heartbeat_interval)

pub record IsValid (r : SessionRegistry) : Type 0 where
  pub sorted : Dict.IsSorted r.sessions
  pub entries : All IsEntry r.sessions
  pub multiple : 0 < r.stale_multiple

-- what the program does with a registry after it has made it
pub data Step : SessionRegistry → SessionRegistry → Type 0 where
  registers : (id : Bytes) (hb : ℤ) (r : SessionRegistry) → Step r (register_session id hb r)
  applies : (ev : Event) (r : SessionRegistry) → Step r (apply ev r).0
  evaluates : (now : ℤ) (r : SessionRegistry) → Step r (evaluate_staleness now r)

pub data Reach (multiple : ℤ) : SessionRegistry → Type 0 where
  made : Reach multiple (new_registry multiple)
  next : {r t : SessionRegistry} → Reach multiple r → Step r t → Reach multiple t

new_registry-IsValid : (n : ℤ) → IsValid (new_registry n)
unfolding new_registry
new_registry-IsValid (pos (suc n)) = record { sorted = tt; entries = tt; multiple = omega arith }
new_registry-IsValid _ = record { sorted = tt; entries = tt; multiple = omega arith }

heartbeat_pos : (hb : ℤ) → 0 < heartbeat_or_default hb
heartbeat_pos (pos (suc n)) = omega arith
heartbeat_pos _ = omega arith

register-IsValid :
    (id : Bytes) (hb : ℤ) (r : SessionRegistry) → IsValid r → IsValid (register_session id hb r)
unfolding register_session
register-IsValid id hb r v = record {
  sorted = Dict.alter-IsSorted id (fresh id) _ r.sessions v.sorted;
  entries =
      Dict.All-alter IsEntry id (fresh id) _ r.sessions v.entries (refl, heartbeat_pos hb)
        (λ s h. (refl, heartbeat_pos hb));
  multiple = v.multiple;
}

apply_to-IsEntry :
    (ev : Event) (k : Bytes) (s : SessionSnapshot) → IsEntry (k, s) → IsEntry (k, (apply_to ev s).0)
apply_to-IsEntry ev k s h = let c = apply_to_clock ev s in (c.0 ∙ h.0, rw (c.1) (h.1))

apply-IsValid : (ev : Event) (r : SessionRegistry) → IsValid r → IsValid (apply ev r).0
unfolding apply
apply-IsValid ev r v = record {
  sorted = Dict.alter-IsSorted ev.session_id (fresh ev.session_id) _ r.sessions v.sorted;
  entries =
      Dict.All-alter IsEntry ev.session_id (fresh ev.session_id) _ r.sessions v.entries
        (apply_to-IsEntry ev ev.session_id (fresh ev.session_id) (refl, omega arith))
        (apply_to-IsEntry ev ev.session_id);
  multiple = v.multiple;
}

module _ (multiple : ℕ) (now : ℤ) where
  evaluate-IsEntry :
      (k : Bytes) (s : SessionSnapshot) → IsEntry (k, s) → IsEntry (k, evaluate multiple now s)
  evaluate-IsEntry k s h =
      let e = evaluate_keeps multiple now s in
      (
        ap (λ (x : SessionSnapshot). x.session_id) e ∙ h.0,
        rw (ap (λ (x : SessionSnapshot). x.heartbeat_interval) e) (h.1),
      )

  evaluate_all-Above :
      (k : Bytes) (m : List (Bytes × SessionSnapshot))
      → Dict.Above k m
      → Dict.Above k (evaluate_all multiple now m)
  unfolding evaluate_all
  evaluate_all-Above k [] a = tt
  evaluate_all-Above k ((j, s) ∷ m) a = (a.0, evaluate_all-Above k m a.1)

  evaluate_all-IsSorted :
      (m : List (Bytes × SessionSnapshot))
      → Dict.IsSorted m
      → Dict.IsSorted (evaluate_all multiple now m)
  unfolding evaluate_all
  evaluate_all-IsSorted [] a = tt
  evaluate_all-IsSorted ((j, s) ∷ m) a = (evaluate_all-Above j m a.0, evaluate_all-IsSorted m a.1)

  evaluate_all-IsEntry :
      (m : List (Bytes × SessionSnapshot))
      → All IsEntry m
      → All IsEntry (evaluate_all multiple now m)
  unfolding evaluate_all
  evaluate_all-IsEntry [] a = tt
  evaluate_all-IsEntry ((j, s) ∷ m) a = (evaluate-IsEntry j s a.0, evaluate_all-IsEntry m a.1)

Step-IsValid : {r t : SessionRegistry} → Step r t → IsValid r → IsValid t
unfolding evaluate_staleness
Step-IsValid (registers id hb r) v = register-IsValid id hb r v
Step-IsValid (applies ev r) v = apply-IsValid ev r v
Step-IsValid (evaluates now r) v = record {
  sorted = evaluate_all-IsSorted r.stale_multiple now r.sessions v.sorted;
  entries = evaluate_all-IsEntry r.stale_multiple now r.sessions v.entries;
  multiple = v.multiple;
}

-- Whatever multiple the registry is made with and whatever is registered, applied and evaluated
-- afterwards, in any order: its sessions stay in key order with no key twice, each is filed under
-- its own id with a positive heartbeat, and the multiple is positive.
pub Reach-IsValid : {n : ℤ} {r : SessionRegistry} → Reach n r → IsValid r
Reach-IsValid {n} made = new_registry-IsValid n
Reach-IsValid (next h st) = Step-IsValid st (Reach-IsValid h)

-- An event is applied to the session that it names, which is made if it is not there, and no other
-- session changes, appears or goes.
pub lookup-apply :
    (ev : Event) (r : SessionRegistry) (k : Bytes)
    → IsValid r
    → Dict.lookup k (apply ev r).0.sessions ≡ (
        if eq_text ev.session_id k
        then some (apply_to ev (session_of r ev.session_id)).0
        else Dict.lookup k r.sessions)
unfolding apply
lookup-apply ev r k v =
    Dict.lookup-alter k ev.session_id (fresh ev.session_id) _ r.sessions v.sorted

session_of-apply_ne :
    (a b : Event) (r : SessionRegistry)
    → IsValid r
    → eq_text a.session_id b.session_id ≡ false
    → session_of (apply a r).0 b.session_id ≡ session_of r b.session_id
session_of-apply_ne a b r v ne = rw (lookup-apply a r b.session_id v, ne)

gap-apply :
    (ev : Event) (r : SessionRegistry)
    → (apply ev r).1 ≡ (apply_to ev (session_of r ev.session_id)).1
unfolding apply
gap-apply ev r = refl

eq_text_ne : (a b : Bytes) → a ≢ b → eq_text a b ≡ false
eq_text_ne a b ne = ground (arith, eq_text_iff a b)

-- The order in which the logs of two sessions are read does not matter: events of different
-- sessions reveal the same gaps and leave every session the same, whichever comes first.
pub apply_comm :
    (a b : Event) (r : SessionRegistry)
    → IsValid r
    → a.session_id ≢ b.session_id
    → ((k : Bytes)
        → Dict.lookup k (apply b (apply a r).0).0.sessions
          ≡ Dict.lookup k (apply a (apply b r).0).0.sessions)
      × ((apply b (apply a r).0).1 ≡ (apply b r).1)
      × ((apply a (apply b r).0).1 ≡ (apply a r).1)
apply_comm a b r v ne =
    let ab = session_of-apply_ne a b r v (eq_text_ne a.session_id b.session_id ne) in
    let ba = session_of-apply_ne b a r v (eq_text_ne b.session_id a.session_id (λ e. ne (sym e))) in
    (
      λ k.
          rw
            (
              lookup-apply b (apply a r).0 k (apply-IsValid a r v),
              lookup-apply a (apply b r).0 k (apply-IsValid b r v),
              lookup-apply a r k v,
              lookup-apply b r k v,
              ab,
              ba,
            )
            (ground (arith, eq_text_iff a.session_id k, eq_text_iff b.session_id k)),
      rw (gap-apply b (apply a r).0, ab, gap-apply b r),
      rw (gap-apply a (apply b r).0, ba, gap-apply a r),
    )
