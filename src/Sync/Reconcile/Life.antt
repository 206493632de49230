-- ===== src/Sync/Reconcile/Life.antt =====
-- The life of a sync (SyncPhase of api/v1/sync_types.go) as a step relation.
use juicefs_operator.Base.{true, ◌≡◌, refl, sym}
use mathlib.Core.Bool.{true≢false}
use juicefs_operator.Sync.{Phase}
use juicefs_operator.Sync.Stats.Ends.{may_follow}

-- One transition of the life cycle.
pub data Moves : Phase → Phase → Type 0 where
  accept_new : Moves Phase.unset Phase.preparing
  accept_pending : Moves Phase.pending Phase.preparing
  start : Moves Phase.preparing Phase.progressing
  time_out : Moves Phase.preparing Phase.failed
  complete : Moves Phase.progressing Phase.completed
  break : Moves Phase.progressing Phase.failed

-- Any number of transitions.
pub data Leads : Phase → Phase → Type 0 where
  stay : {p : Phase} → Leads p p
  go : {p q r : Phase} → Moves p q → Leads q r → Leads p r

-- Completed and failed are final.
pub Leads-completed : (p : Phase) → Leads Phase.completed p → p ≡ Phase.completed
Leads-completed p stay = refl
Leads-completed p (go m l) = elim m [ ]

pub Leads-failed : (p : Phase) → Leads Phase.failed p → p ≡ Phase.failed
Leads-failed p stay = refl
Leads-failed p (go m l) = elim m [ ]

pub Leads-may_follow : (p : Phase) → may_follow p ≡ true → Leads Phase.progressing p
Leads-may_follow Phase.progressing h = stay
Leads-may_follow Phase.completed h = go complete stay
Leads-may_follow Phase.failed h = go break stay
Leads-may_follow Phase.unset h = absurd (true≢false (sym h))
Leads-may_follow Phase.pending h = absurd (true≢false (sym h))
Leads-may_follow Phase.preparing h = absurd (true≢false (sym h))
