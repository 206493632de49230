-- ===== src/CacheGroup/Calls.antt =====
-- What a handler of the cache group controller does to the outside, as a list of calls, and how it
-- ends. A later call is made only if the ones before it succeeded.
use juicefs_operator.Base.Text.{Text}
use juicefs_operator.Base.{
  Memᴰ, ℕ, String, ◌≡◌, Bool, true, Option, none, some, List, [], ◌∷◌, ◌++◌, all, arith, refl,
}
use juicefs_operator.Kube.{ApiError, Annotations}

pub data EventReason : Type 0 where
  worker_created worker_updated worker_deleted worker_operation_failed worker_restart_triggered
        worker_join_started worker_join_finished worker_ready worker_not_ready :
      EventReason

-- The first argument names the pod, volume claim or job. `update_group` writes the group back with the
-- finalizer or without it.
pub data Call : Type 0 where
  ensure_pvcs : String → Call
  trigger_restart : String → (mount_opts : Text) → Call
  patch_worker : String → Annotations → Call
  delete_worker : String → Call
  create_worker : String → Call
  create_pvc : String → Call
  update_pvc : String → ℕ → Call
  delete_pvc : String → Call
  create_clean_job : String → Call
  event : EventReason → String → Call
  update_group : (finalizer : Bool) → Call

pub data Failure : Type 0 where
  api : ApiError → Failure
  timed_out exec_failed invalid_spec : Failure

abbrev pub Run : Type 0
Run = List Call × Option Failure

infixl 10 ◌>>◌
abbrev pub ◌>>◌ : Run → Run → Run
(cs, none) >> (ds, e) = (cs ++ ds, e)
(cs, some f) >> next = (cs, some f)

abbrev pub done : Run
done = ([], none)

abbrev pub fail : Failure → Run
fail f = ([], some f)

abbrev pub make : Call → Run
make c = (c ∷ [], none)

-- A call that the API server answers with an error or not.
abbrev pub answered : Call → Option ApiError → Run
answered c none = (c ∷ [], none)
answered c (some e) = (c ∷ [], some (api e))

-- The calls that a run makes satisfy `p`.
abbrev pub calls_only : (Call → Bool) → Run → Bool
calls_only p r = all p r.0

pub all-append :
    (p : Call → Bool) (cs ds : List Call)
    → all p cs ≡ true
    → all p ds ≡ true
    → all p (cs ++ ds) ≡ true
all-append p [] ds h k = k
all-append p (c ∷ cs) ds h k = ground (arith, all-append p cs ds)

pub calls_only->> :
    (p : Call → Bool) (m n : Run)
    → calls_only p m ≡ true
    → calls_only p n ≡ true
    → calls_only p (m >> n) ≡ true
calls_only->> p (cs, none) (ds, e) h k = all-append p cs ds h k
calls_only->> p (cs, some f) n h k = h

-- A run that ends well has ended well in both of its parts.
pub >>-eq-none : (m n : Run) → (m >> n).1 ≡ none → (m.1 ≡ none) × (n.1 ≡ none)
>>-eq-none (cs, none) n h = (refl, h)
>>-eq-none (cs, some f) n h = (h, cc)

pub mem-append-left : (c : Call) (cs ds : List Call) → Memᴰ c cs → Memᴰ c (cs ++ ds)
mem-append-left c [] ds m = elim m [ ]
mem-append-left c (d ∷ cs) ds (Memᴰ.head e) = Memᴰ.head e
mem-append-left c (d ∷ cs) ds (Memᴰ.tail m) = Memᴰ.tail (mem-append-left c cs ds m)

pub mem-append-right : (c : Call) (cs ds : List Call) → Memᴰ c ds → Memᴰ c (cs ++ ds)
mem-append-right c [] ds m = m
mem-append-right c (d ∷ cs) ds m = Memᴰ.tail (mem-append-right c cs ds m)

-- The calls of a run are among those of a longer one, and the later calls if it ended well.
pub mem->>-left : (m n : Run) (c : Call) → Memᴰ c m.0 → Memᴰ c (m >> n).0
mem->>-left (cs, none) n c h = mem-append-left c cs n.0 h
mem->>-left (cs, some f) n c h = h

pub mem->>-right : (m n : Run) → m.1 ≡ none → (c : Call) → Memᴰ c n.0 → Memᴰ c (m >> n).0
mem->>-right (cs, none) n e c h = mem-append-right c cs n.0 h
mem->>-right (cs, some f) n e c h = cc

-- A call that was answered without an error.
pub answered_well :
    (c : Call) (e : Option ApiError)
    → (answered c e).1 ≡ none
    → (e ≡ none) × Memᴰ c (answered c e).0
answered_well c none h = (refl, Memᴰ.head refl)
answered_well c (some e) h = cc
