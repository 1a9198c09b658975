-- ===== src/Post/Interleave/Steps.antt =====
-- The accesses that change the work queue, or look at it.
use dis_kverbs.Common.{
  ℕ, ◌+◌, ◌%◌, ◌<◌, ◌≡◌, refl, ap, sym, subst, ◌∙◌, arith, false, ltb, List, [], ◌∷◌, ◌++◌,
  append_assoc, get_or, set, length-set, get_or-set_self, set_same,
}
use dis_kverbs.Common.Ring.{
  ring_contents, ring_contents-set_head, ring_contents-set_tail, ring_contents_push,
  ring_contents_pop,
}
use dis_kverbs.Common.Mask.{used_after_push, used_after_pop}
use dis_kverbs.Kernel.{CircBuf}
use dis_kverbs.Verbs.{DisWqe, DisWq, zero_wqe, circ_next}
use dis_kverbs.Circ.{
  full_test, empty_test, circ_next-head, circ_next-tail, IsRing, IsRing-next_tail, IsRing-next_head,
}
use dis_kverbs.Cq.Interleave.Known.{at_indices}
use dis_kverbs.Worker.Tail.{IsQueue}
use dis_kverbs.Post.{IbWr}
use dis_kverbs.Post.Interleave.{
  WqPoster, idle, inside, filled, WqWorker, away, looked, fetched, consumed, WqShared,
}
use dis_kverbs.Post.Interleave.Known.{
  waiting, oldest, from, IsPosting, IsWorking, held, begin, unfinished, IsWqShared, begin_in,
  IsWorking-write, IsWorking-push, IsPosting-consume, IsPosting-pop,
}

-- Where the head begins does not depend on what stands in the slots.
begin_buf :
    (wq : DisWq) (b : List DisWqe) (w : WqWorker) → begin (record wq { buf = b }) w ≡ begin wq w
begin_buf wq b away = refl
begin_buf wq b (looked head) = refl
begin_buf wq b (fetched wqe) = refl
begin_buf wq b (consumed wqe) = refl

begin_head : (wq : DisWq) (h : ℕ) (w : WqWorker) → begin (record wq { head = h }) w ≡ begin wq w
begin_head wq h away = refl
begin_head wq h (looked head) = refl
begin_head wq h (fetched wqe) = refl
begin_head wq h (consumed wqe) = refl

-- An entry at the head is not among those that wait.
unfinished_write :
    (wq : DisWq) (e : DisWqe) (w : WqWorker)
    → IsQueue wq
    → IsWorking wq w
    → unfinished (record wq { buf = set wq.buf wq.head e }) w ≡ unfinished wq w
unfinished_write wq e w v k =
    ap (λ t. held w ++ from (record wq { buf = set wq.buf wq.head e }) t)
      (begin_buf wq (set wq.buf wq.head e) w)
    ∙ ap (λ l. held w ++ l)
        (ring_contents-set_head zero_wqe wq.buf wq.wqe_max wq.head (begin wq w) v.ring.head_in
          (begin_in wq w v k).0 e)

-- Publishing it appends it.
unfinished_publish :
    (wq : DisWq) (w : WqWorker)
    → IsQueue wq
    → IsWorking wq w
    → waiting wq + 1 < wq.wqe_max
    → unfinished (record wq { head = circ_next wq.head wq.wqe_max }) w
      ≡ unfinished wq w ++ get_or wq.buf wq.head zero_wqe ∷ []
unfinished_publish wq w v k room =
    let r = v.ring in
    let e = get_or wq.buf wq.head zero_wqe in
    let next = circ_next wq.head wq.wqe_max in
    let (begin_lt, fewer) = begin_in wq w v k in
    let pushed =
      ring_contents_push zero_wqe wq.buf wq.wqe_max wq.head (begin wq w) r.head_in begin_lt e
        r.filled (omega (arith, fewer, room)) in
    ap (λ t. held w ++ from (record wq { head = next }) t) (begin_head wq next w)
    ∙ ap (λ h. held w ++ ring_contents zero_wqe wq.buf wq.wqe_max h (begin wq w)) (circ_next-head r)
    ∙ ap
        (λ b.
          held w ++ ring_contents zero_wqe b wq.wqe_max ((wq.head + 1) % wq.wqe_max) (begin wq w))
        (sym (set_same wq.buf wq.head e zero_wqe refl))
    ∙ ap (λ l. held w ++ l) pushed
    ∙ sym (append_assoc (held w) (from wq (begin wq w)) (e ∷ []))

-- An entry is written to the slot at the head, for a request that is refused or not.
pub write-IsWqShared :
    {s : WqShared} (wr : IbWr) (head tail : ℕ) (e : DisWqe) (p : WqPoster)
    → s.poster ≡ inside wr head tail
    → IsWqShared s
    → IsPosting (record (s.wq) { buf = set s.wq.buf head e }) p
    → IsWqShared (record s { wq = record (s.wq) { buf = set s.wq.buf head e }; poster = p })
write-IsWqShared {s} wr head tail e p at v known =
    let (same, _, _) = subst (IsPosting s.wq) at v.posting in
    let moved : record (s.wq) { buf = set s.wq.buf head e }
        ≡ record (s.wq) { buf = set s.wq.buf s.wq.head e } =
      ap (λ h. record (s.wq) { buf = set s.wq.buf h e }) same in
    record {
      ordered = record {
        ring =
            subst (λ b. IsRing s.wq.wqe_max s.wq.head s.wq.tail b)
              (sym (length-set s.wq.buf head e)) v.ordered.ring;
      };
      posting = known;
      working =
          subst (λ q. IsWorking q s.worker) (sym moved) (IsWorking-write s.wq e s.worker v.working);
      in_order =
          v.in_order
          ∙ ap (λ l. s.taken ++ l)
              (sym (
                ap (λ q. unfinished q s.worker) moved
                ∙ unfinished_write s.wq e s.worker v.ordered v.working));
    }

pub fill-IsWqShared :
    (c : CircBuf) {s : WqShared} (wr : IbWr) (head tail : ℕ) (e : DisWqe)
    → s.poster ≡ inside wr head tail
    → ltb (c.circ_space head tail s.wq.wqe_max) 1 ≡ false
    → IsWqShared s
    → IsWqShared
        (record s { wq = record (s.wq) { buf = set s.wq.buf head e }; poster = filled e head })
fill-IsWqShared c {s} wr head tail e at space v =
    let (same, tail_in, few) = subst (IsPosting s.wq) at v.posting in
    let r = v.ordered.ring in
    let old = at_indices head tail r (omega (arith, r.head_in)) tail_in in
    let room : waiting s.wq + 1 < s.wq.wqe_max = ground (arith, full_test old c) in
    write-IsWqShared wr head tail e (filled e head) at v (
      same,
      room,
      ap (λ h. get_or (set s.wq.buf h e) s.wq.head zero_wqe) same
          ∙ get_or-set_self s.wq.buf s.wq.head e zero_wqe (omega (arith, r.head_in, r.filled)),
    )

pub publish-IsWqShared :
    {s : WqShared} (e : DisWqe) (head : ℕ)
    → s.poster ≡ filled e head
    → IsWqShared s
    → IsWqShared (record s {
      wq = record (s.wq) { head = circ_next head s.wq.wqe_max };
      poster = idle;
      posted = s.posted ++ e ∷ [];
    })
publish-IsWqShared {s} e head at v =
    let (same, room, slot) = subst (IsPosting s.wq) at v.posting in
    let r = v.ordered.ring in
    let next = circ_next s.wq.head s.wq.wqe_max in
    rw same (record {
      ordered = record { ring = IsRing-next_head r };
      posting = tt;
      working =
          IsWorking-push s.wq next s.worker
            (rw (circ_next-head r) (
              omega
                (arith, used_after_push s.wq.wqe_max s.wq.head s.wq.tail r.head_in r.tail_in room)))
            v.working;
      in_order =
          ap (λ l. l ++ e ∷ []) v.in_order
          ∙ append_assoc s.taken (unfinished s.wq s.worker) (e ∷ [])
          ∙ ap (λ x. s.taken ++ (unfinished s.wq s.worker ++ x ∷ [])) (sym slot)
          ∙ ap (λ l. s.taken ++ l)
              (sym (unfinished_publish s.wq s.worker v.ordered v.working room));
    })

pub fetch-IsWqShared :
    (c : CircBuf) {s : WqShared} (head : ℕ)
    → s.worker ≡ looked head
    → ltb (c.circ_cnt head s.wq.tail s.wq.wqe_max) 1 ≡ false
    → IsWqShared s
    → IsWqShared (record s { worker = fetched (oldest s.wq) })
fetch-IsWqShared c {s} head at some_left v =
    let (head_in, there) = subst (IsWorking s.wq) at v.working in
    let r = at_indices head s.wq.tail v.ordered.ring head_in v.ordered.ring.tail_in in
    record {
      ordered = v.ordered;
      posting = v.posting;
      working = (ground (arith, empty_test r c), refl);
      in_order = v.in_order ∙ ap (λ w. s.taken ++ unfinished s.wq w) at;
    }

pub consume-IsWqShared :
    {s : WqShared} (wqe e : DisWqe)
    → s.worker ≡ fetched wqe
    → IsWqShared s
    → IsWqShared
        (record s { wq = record (s.wq) { buf = set s.wq.buf s.wq.tail e }; worker = consumed wqe })
consume-IsWqShared {s} wqe e at v =
    let (some_used, same) = subst (IsWorking s.wq) at v.working in
    let r = v.ordered.ring in
    let q = s.wq in
    let next = circ_next q.tail q.wqe_max in
    let popped =
      ring_contents_pop zero_wqe q.buf q.wqe_max q.head q.tail r.head_in r.tail_in some_used in
    let kept =
      ring_contents-set_tail zero_wqe q.buf q.wqe_max q.head q.tail r.head_in r.tail_in e
        some_used in
    record {
      ordered = record { ring = rw (length-set q.buf q.tail e) r };
      posting = IsPosting-consume q e s.poster some_used v.posting;
      working = some_used;
      in_order =
          v.in_order
          ∙ ap (λ w. s.taken ++ unfinished q w) at
          ∙ ap (λ l. s.taken ++ l)
              (popped
                ∙ ap (λ l. oldest q ∷ l) (sym kept)
                ∙ ap
                    (λ t. oldest q ∷ ring_contents zero_wqe (set q.buf q.tail e) q.wqe_max q.head t)
                    (sym (circ_next-tail r))
                ∙ ap (λ x. x ∷ ring_contents zero_wqe (set q.buf q.tail e) q.wqe_max q.head next)
                    (sym same));
    }

pub release-IsWqShared :
    {s : WqShared} (wqe : DisWqe)
    → s.worker ≡ consumed wqe
    → IsWqShared s
    → IsWqShared (record s {
      wq = record (s.wq) { tail = circ_next s.wq.tail s.wq.wqe_max };
      worker = away;
      taken = s.taken ++ wqe ∷ [];
    })
release-IsWqShared {s} wqe at v =
    let some_used = subst (IsWorking s.wq) at v.working in
    let r = v.ordered.ring in
    let next = circ_next s.wq.tail s.wq.wqe_max in
    record {
      ordered = record { ring = IsRing-next_tail r };
      posting =
          IsPosting-pop s.wq next s.poster
            (rw (circ_next-tail r) (
              omega (
                arith,
                used_after_pop s.wq.wqe_max s.wq.head s.wq.tail r.head_in r.tail_in some_used,
              )))
            v.posting;
      working = tt;
      in_order =
          v.in_order
          ∙ ap (λ w. s.taken ++ unfinished s.wq w) at
          ∙ sym (append_assoc s.taken (wqe ∷ []) (from s.wq next));
    }
