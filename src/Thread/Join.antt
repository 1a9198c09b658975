-- ===== src/Thread/Join.antt =====
-- Joining the message queue, which is tried until it succeeds or the thread is told to stop.
use dis_kverbs.Common.{◌≡◌, refl, Bool, true, false, List, [], ◌∷◌, if◌then◌else◌}
use dis_kverbs.Verbs.{done, fail, DisWq, DisWqType, dis_sq, dis_rq}
use dis_kverbs.SciIf.{SciParams, SciError, sci_ok, sci_failed, sci_ret}
use dis_kverbs.SciIf.Pairing.{create_answered, connect_answered}
use dis_kverbs.Thread.{join_msq, dis_wq_init}

-- Whether one of the answers accepts.
unfoldable pub accepts : List SciError → Bool
accepts [] = false
accepts (sci_ok ∷ errs) = true
accepts (sci_failed f ∷ errs) = accepts errs

module _ (p : SciParams) (wq : DisWq) where
  answered :
      (err : SciError) (type : DisWqType) → wq.wq_type ≡ type → join_msq p err wq ≡ sci_ret err
  unfolding join_msq
  answered err dis_rq e = rw (e, join_msq) (create_answered p err wq)
  answered err dis_sq e = rw (e, join_msq) (connect_answered p err wq)

  -- dis_wq_init returns 0 exactly where one of the attempts is accepted, whichever failures came before, and
  -- -42 where the thread is told to stop first.
  pub dis_wq_init_lem :
      (errs : List SciError) → dis_wq_init p errs wq ≡ (if accepts errs then done else fail 42)
  unfolding dis_wq_init accepts
  dis_wq_init_lem [] = refl
  dis_wq_init_lem (sci_ok ∷ errs) = rw (answered sci_ok wq.wq_type refl, dis_wq_init) refl
  dis_wq_init_lem (sci_failed f ∷ errs) =
      rw (answered (sci_failed f) wq.wq_type refl, dis_wq_init) (dis_wq_init_lem errs)
