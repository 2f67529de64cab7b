-- ===== src/Sgwc/Sound.antt =====
-- internal/sgwc/session/store.go: the store and its WAL hold the same sessions.
use cups.Base.{
  ℕ, ◌≡◌, refl, sym, ap, ◌∙◌, Bool, true, false, Option, none, some, Map, get, nat_eq, subst, arith,
  get-put, get-del,
}
use cups.Sgwc.{Session}
use cups.Sgwc.Wal.{Wal, commit}
use cups.Journal.{Answers}
use cups.Sgwc.Wal.Durable.{IsDurable, commit-IsDurable}
use cups.Sgwc.Wal.Follows.{Follows, commit-Follows, transition}
use cups.Sgwc.Store.{Store, persist, persist_with, persisted}
use cups.Sgwc.Invariant.{IsValid}

abbrev pub Coupled : Option Wal → Map ℕ Session → Type 0
Coupled none m = Unit
Coupled (some w) m = IsDurable w × ((i : ℕ) → get i w.snapshots ≡ get i m)

pub record IsSound (s : Store) : Type 0 where
  pub valid : IsValid s
  pub coupled : Coupled s.persister s.by_id

transition-get :
    (p n : Option Session) (m k : Map ℕ Session)
    → ((i : ℕ) → get i m ≡ get i k)
    → (i : ℕ) → get i (transition p n m) ≡ get i (transition p n k)
transition-get none none m k h i = h i
transition-get none (some n) m k h i = ground (arith, h i, get-put n.id i n m, get-put n.id i n k)
transition-get (some p) none m k h i = ground (arith, h i, get-del p.id i m, get-del p.id i k)
transition-get (some p) (some n) m k h i =
    ground (arith, h i, get-put n.id i n m, get-put n.id i n k)

-- What persist leaves: after a failure the store is poisoned and the WAL holds its sessions still;
-- after a success the WAL has made the transition.
module _ (P : Store × Bool → Type 0) (a : Answers) (p n : Option Session) (s : Store)
    (failed : (w : Wal)
      → Coupled (some w) s.by_id
      → P (record s { persister = some w; is_poisoned = true }, false))
    (done : (o : Option Wal)
      → Coupled o (transition p n s.by_id)
      → P (record s { persister = o }, true)) where
  persisted_cases :
      (r : Wal × Bool) (w : Wal)
      → IsDurable r.0
      → Follows p n w r
      → ((i : ℕ) → get i w.snapshots ≡ get i s.by_id)
      → P (persisted s r)
  persisted_cases (v, true) w d f h =
      done (some v) (d, λ i. ap (get i) f ∙ transition-get p n w.snapshots s.by_id h i)
  persisted_cases (v, false) w d f h = failed v (d, λ i. ap (get i) f ∙ h i)

  persist_with_cases :
      (o : Option Wal) → s.persister ≡ o → Coupled o s.by_id → P (persist_with a p n s o)
  persist_with_cases none e c =
      done s.persister (subst (λ o. Coupled o (transition p n s.by_id)) (sym e) tt)
  persist_with_cases (some w) e c =
      persisted_cases (commit a p n w) w (commit-IsDurable a p n w c.0) (commit-Follows a p n w) c.1

  pub persist_cases : Coupled s.persister s.by_id → P (persist a p n s)
  unfolding persist
  persist_cases c = persist_with_cases s.persister refl c
