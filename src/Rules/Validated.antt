-- ===== src/Rules/Validated.antt =====
-- What a session that validate of internal/sgwu/rules/store.go accepts has.
use cups.Base.{
  ℕ, ◌≡◌, ◌≢◌, refl, Bool, true, false, ◌&&◌, some, arith, get, has, all, all-get, nat_eq,
}
use cups.Rules.{Pdr, Session}
use cups.Rules.Validate.{pdr_ok, far_ok, validate}

-- The revision is not looked at.
pub validate-revision : (c : Session) (n : ℕ) → validate (record c { revision = n }) ≡ validate c
unfolding validate pdr_ok far_ok
validate-revision c n = refl

both : (a b : Bool) → (a && b) ≡ true → (a ≡ true) × (b ≡ true)
both true b h = (refl, h)
both false b h = cc

pdrs_lem :
    (c : Session) (id : ℕ) (pdr : Pdr)
    → validate c ≡ true
    → get id c.pdrs ≡ some pdr
    → pdr_ok c (id, pdr) ≡ true
unfolding validate
pdrs_lem c id pdr h e = all-get (pdr_ok c) id pdr c.pdrs (ground arith) e

-- A PDR stands under its own id, on a tunnel, and its FAR is in the session.
pub pdr_lem :
    (c : Session) (id : ℕ) (pdr : Pdr)
    → validate c ≡ true
    → get id c.pdrs ≡ some pdr
    → (id ≡ pdr.id)
      × (pdr.local_fteid.teid ≢ 0)
      × (has pdr.far_id c.fars ≡ true)
      × (all (λ q. has q c.qers) pdr.qer_ids ≡ true)
      × (all (λ u. has u c.urrs) pdr.urr_ids ≡ true)
unfolding pdr_ok
pdr_lem c id pdr h e = let p = pdrs_lem c id pdr h e in ground arith

pub up_seid_lem : (c : Session) → validate c ≡ true → c.up_seid ≢ 0
unfolding validate
up_seid_lem c h = ground arith
