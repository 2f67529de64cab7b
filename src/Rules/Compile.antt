-- ===== src/Rules/Compile.antt =====
-- compilePacketRule of internal/sgwu/rules/store.go.
use cups.Base.{
  ℕ, ◌&&◌, ◌||◌, Option, none, some, List, [], ◌∷◌, ◌++◌, ◌==◌, ◌!=◌, if◌then◌else◌, ◌>>=◌, get,
  nat_eq,
}
use cups.Rules.{Pdr, Far, Qer, Session, PacketRule, no_qer, no_bar}

-- The QER that the rule shows: the first one, until one carries a QCI.
abbrev pub chosen : Qer → Qer → Qer
chosen qer next = if qer.id == 0 || (next.qci != 0 && qer.qci == 0) then next else qer

-- The loop over the QER ids.
unfoldable pub add_qers : Session → List ℕ → PacketRule → Option PacketRule
add_qers c [] r = some r
add_qers c (id ∷ ids) r = get id c.qers >>= λ qer.
    add_qers c ids (record r { qers = r.qers ++ qer ∷ []; qer = chosen r.qer qer })

-- The loop over the URR ids.
unfoldable pub add_urrs : Session → List ℕ → PacketRule → Option PacketRule
add_urrs c [] r = some r
add_urrs c (id ∷ ids) r =
    get id c.urrs >>= λ urr. add_urrs c ids (record r { urrs = r.urrs ++ urr ∷ [] })

unfoldable pub add_bar : Session → PacketRule → Option PacketRule
add_bar c r =
    if r.far.bar_id == 0
    then some r
    else (get r.far.bar_id c.bars >>= λ bar. some (record r { bar = bar }))

abbrev pub bare : Session → Pdr → Far → PacketRule
bare c pdr far = record {
  up_seid = c.up_seid;
  revision = c.revision;
  pdr = pdr;
  far = far;
  qer = no_qer;
  qers = [];
  urrs = [];
  bar = no_bar;
  generation = none;
}

unfoldable pub compile_packet_rule : Session → ℕ → Option PacketRule
unfolding add_qers add_urrs add_bar
compile_packet_rule c id = get id c.pdrs >>= λ pdr. get pdr.far_id c.fars >>= λ far.
    add_qers c pdr.qer_ids (bare c pdr far) >>= λ r. add_urrs c pdr.urr_ids r >>= λ q. add_bar c q
