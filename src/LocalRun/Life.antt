-- ===== src/LocalRun/Life.antt =====
-- The life of the state directory: the calls of the service, in any order, with any answers from
-- outside, including those that end with an error part of the way. A crash between two writes
-- leaves what a call leaves whose next write fails.
use goalrail.LocalRun.Store.{find_file}
use goalrail.Base.{Bool, Option, String, ◌≡◌, some}
use goalrail.LocalRun.Action.{Files}
use goalrail.LocalRun.Host.{Host, Adapter, PrepareCall, StartCall, FinishCall}
use goalrail.LocalRun.Prepare.{prepare}
use goalrail.LocalRun.Start.{start, StartInput}
use goalrail.LocalRun.Finish.{finish, FinishInput}
use goalrail.LocalRun.Store.Once.{
  Extends, Publications, nothing_more, Publications-trans, Publications-Extends,
}
use goalrail.LocalRun.Retained.{prepare-Grows, start-Grows, finish-Grows}

module _ {Bytes : Type 0} (host : Host Bytes) where
  pub data Step : Files Bytes → Files Bytes → Type 0 where
    by_prepare :
        (call : PrepareCall) (legacy : Bool) (raw : Bytes) (s : Files Bytes)
        → Step s (prepare host call legacy raw s).1
    by_start :
        (call : StartCall Bytes) (adapter : Option (Adapter Bytes)) (input : StartInput)
        (s : Files Bytes)
        → Step s (start host call adapter input s).1
    by_finish :
        (call : FinishCall) (input : FinishInput) (s : Files Bytes)
        → Step s (finish host call input s).1

  pub data Reach (s : Files Bytes) : Files Bytes → Type 0 where
    here : Reach s s
    next : {t u : Files Bytes} → Reach s t → Step t u → Reach s u

  Step-Publications : {s t : Files Bytes} → Step s t → Publications s t
  Step-Publications (by_prepare call legacy raw s) = prepare-Grows host call legacy raw s
  Step-Publications (by_start call adapter input s) = start-Grows host call adapter input s
  Step-Publications (by_finish call input s) = finish-Grows host call input s

  pub Reach-Publications : {s t : Files Bytes} → Reach s t → Publications s t
  Reach-Publications here = nothing_more
  Reach-Publications (next r step) =
      Publications-trans (Reach-Publications r) (Step-Publications step)

  pub Reach-Extends : {s t : Files Bytes} → Reach s t → Extends s t
  Reach-Extends r = Publications-Extends (Reach-Publications r)

  -- Whatever calls of the service follow, with whatever answers and failures, a file of the state
  -- directory stays there with its content.
  pub Reach-find_file :
      (s t : Files Bytes) (key : String) (c : Bytes)
      → Reach s t
      → find_file key s ≡ some c
      → find_file key t ≡ some c
  Reach-find_file s t key c reach h = Reach-Extends reach key c h
