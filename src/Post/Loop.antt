-- ===== src/Post/Loop.antt =====
-- The second loop of dis_qp_post_one_sqe and _rqe, over one segment: it ends, touches nothing out of
-- bounds, and appends elements that name the segment's bytes.
use dis_kverbs.Common.{
  ℕ, zero, suc, ◌+◌, ◌-◌, ◌*◌, ◌/◌, ◌%◌, ◌^◌, ◌≤◌, ◌<◌, ◌≡◌, min, List, [], ◌∷◌, ◌++◌, some, arith,
  ltb, true, false, Bool-cases, inl, inr, length, length-set, get_or, take, take-set,
  get_elem?-eq-get_or, tabulate, tabulate_congr, tabulate_split, append_assoc, append-nil, refl, ap,
  ap₂, ◌∙◌, sym, subst, tests,
}
use native.Mathlib.Numerals.{add-one}
use dis_kverbs.Verbs.{Iovec, zero_iovec, page_size, u32}
use dis_kverbs.Post.{Fill, chunk, put_chunk, fill_pages}
use dis_kverbs.Post.Spec.{bytes_of, all_bytes, phys, pages_touched}

all_bytes-append : (xs ys : List Iovec) → all_bytes (xs ++ ys) ≡ all_bytes xs ++ all_bytes ys
all_bytes-append [] ys = refl
all_bytes-append (x ∷ xs) ys =
    rw (all_bytes-append xs ys) (sym (append_assoc (bytes_of x) (all_bytes xs) (all_bytes ys)))

-- From `f` to `f'` the array got `n` elements that name `addrs`, `len` bytes.
pub record Appended (f f' : Fill) (n len : ℕ) (addrs : List ℕ) : Type 0 where
  pub same_room : length f'.cells ≡ length f.cells
  pub moved : f'.pos ≡ f.pos + n
  pub counted_bytes : f'.byte_len ≡ u32 (f.byte_len + len)
  pub named : all_bytes (take f'.pos f'.cells) ≡ all_bytes (take f.pos f.cells) ++ addrs

-- The bytes of one chunk, and those that it leaves.
chunk_split :
    (pages : List Iovec) (page base len : ℕ)
    → base < page_size
    → let c = chunk base len in
      tabulate (λ j. phys pages (page * page_size + base + j)) len
      ≡ bytes_of (record { iov_base = (get_or pages page zero_iovec).iov_base + base; iov_len = c })
        ++ tabulate (λ j. phys pages ((page + 1) * page_size + 0 + j)) (len - c)
unfolding chunk
chunk_split pages page base len h =
    ap (tabulate whole) total
    ∙ tabulate_split whole c (len - c)
    ∙ ap₂ ◌++◌ (tabulate_congr _ _ c inside) (tabulate_congr _ _ (len - c) beyond)
  where
    c : ℕ
    c = min len (page_size - base)

    whole : ℕ → ℕ
    whole j = phys pages (page * page_size + base + j)

    total : len ≡ c + (len - c)
    total = omega arith

    inside : (i : ℕ) → i < c → whole i ≡ (get_or pages page zero_iovec).iov_base + base + i
    inside i lt = rw (quotient, remainder) (omega arith)
      where
        quotient : (page * page_size + base + i) / page_size ≡ page
        quotient = omega arith

        remainder : (page * page_size + base + i) % page_size ≡ base + i
        remainder = omega arith

    beyond : (i : ℕ) → i < len - c → whole (c + i) ≡ phys pages ((page + 1) * page_size + 0 + i)
    beyond i lt = ap (phys pages) same
      where
        same : page * page_size + base + (c + i) ≡ (page + 1) * page_size + 0 + i
        same = omega arith

put_chunk-Appended :
    (pages : List Iovec) (page base len : ℕ) (f : Fill)
    → f.pos < length f.cells
    → let v = get_or pages page zero_iovec in
      Appended f
        (put_chunk v base len f)
        1
        (chunk base len)
        (bytes_of (record { iov_base = v.iov_base + base; iov_len = chunk base len }))
unfolding put_chunk
put_chunk-Appended pages page base len f room = record {
  same_room = length-set f.cells f.pos _;
  moved = refl;
  counted_bytes = refl;
  named = rw (add-one, take-set f.cells f.pos _ room, all_bytes-append) (rw append-nil refl);
}

pub Appended-trans :
    {f g h : Fill} {m n a b : ℕ} {xs ys : List ℕ}
    → Appended f g m a xs
    → Appended g h n b ys
    → Appended f h (m + n) (a + b) (xs ++ ys)
Appended-trans {f} {g} {h} {a} {b} {xs} {ys} p q = record {
  same_room = q.same_room ∙ p.same_room;
  moved = omega arith;
  counted_bytes = omega arith;
  named = q.named ∙ ap (λ t. t ++ ys) p.named ∙ append_assoc (all_bytes (take f.pos f.cells)) xs ys;
}

pub Appended-eq :
    {f f' : Fill} {m n a b : ℕ} {xs ys : List ℕ}
    → Appended f f' m a xs
    → m ≡ n
    → a ≡ b
    → xs ≡ ys
    → Appended f f' n b ys
Appended-eq {f} p n b ys = record {
  same_room = p.same_room;
  moved = omega arith;
  counted_bytes = rw (← b) p.counted_bytes;
  named = p.named ∙ ap (λ t. all_bytes (take f.pos f.cells) ++ t) ys;
}

-- Each round takes one page off.
pages_touched_step :
    (base len : ℕ)
    → base < page_size
    → ltb 0 len ≡ true
    → pages_touched base len ≡ 1 + pages_touched 0 (len - chunk base len)
unfolding chunk pages_touched
pages_touched_step base len h more = ground arith

chunk_pos : (base len : ℕ) → base < page_size → ltb 0 len ≡ true → 0 < chunk base len
unfolding chunk
chunk_pos base len h more = omega tests

chunk-le : (base len : ℕ) → chunk base len ≤ len
unfolding chunk
chunk-le base len = omega arith

fill_round :
    (fuel : ℕ) (pages : List Iovec) (page base len : ℕ) (f : Fill)
    → ltb 0 len ≡ true
    → page < length pages
    → f.pos < length f.cells
    → fill_pages (suc fuel) pages page base len f
      ≡ fill_pages fuel pages
          (page + 1)
          0
          (len - chunk base len)
          (put_chunk (get_or pages page zero_iovec) base len f)
unfolding fill_pages
fill_round fuel pages page base len f more hp hc =
    ground (arith, get_elem?-eq-get_or pages page zero_iovec hp)

-- A chunk, and then the rest of the segment.
Appended-round :
    (pages : List Iovec) (page base len : ℕ) {f f' : Fill}
    → base < page_size
    → ltb 0 len ≡ true
    → f.pos < length f.cells
    → Appended
        (put_chunk (get_or pages page zero_iovec) base len f)
        f'
        (pages_touched 0 (len - chunk base len))
        (len - chunk base len)
        (tabulate (λ j. phys pages ((page + 1) * page_size + 0 + j)) (len - chunk base len))
    → Appended f f'
        (pages_touched base len)
        len
        (tabulate (λ j. phys pages (page * page_size + base + j)) len)
Appended-round pages page base len {f} {f'} hb more room rest =
    let whole : chunk base len + (len - chunk base len) ≡ len = omega (arith, chunk-le base len) in
    let addrs : List ℕ = bytes_of (record {
      iov_base = (get_or pages page zero_iovec).iov_base + base;
      iov_len = chunk base len;
    }) in
    let beyond : List ℕ =
      tabulate (λ j. phys pages ((page + 1) * page_size + 0 + j)) (len - chunk base len) in
    rw (chunk_split pages page base len hb, pages_touched_step base len hb more)
      (subst (λ n. Appended f f' (1 + pages_touched 0 (len - chunk base len)) n (addrs ++ beyond))
        whole (Appended-trans (put_chunk-Appended pages page base len f room) rest))

pub Appended-none :
    (f : Fill) (base len : ℕ) (addr : ℕ → ℕ)
    → ltb 0 len ≡ false
    → f.byte_len < 2 ^ 32
    → Appended f f (pages_touched base len) len (tabulate addr len)
unfolding pages_touched
Appended-none f base zero addr over small = record {
  same_room = refl;
  moved = omega arith;
  counted_bytes = omega arith;
  named = sym (append-nil (all_bytes (take f.pos f.cells)));
}
Appended-none f base (suc len) addr over small = ground arith

put_chunk-small : (v : Iovec) (base len : ℕ) (f : Fill) → (put_chunk v base len f).byte_len < 2 ^ 32
unfolding put_chunk
put_chunk-small v base len f = omega arith

-- With fuel above the length, an offset inside the page, and room in both arrays, the loop ends
-- with as many new elements as pages are touched, and they name the bytes in order.
pub fill_pages_lem :
    (fuel : ℕ) (pages : List Iovec) (page base len : ℕ) (f : Fill)
    → len < fuel
    → f.byte_len < 2 ^ 32
    → base < page_size
    → page + pages_touched base len ≤ length pages
    → f.pos + pages_touched base len ≤ length f.cells
    → (f' : Fill) × (fill_pages fuel pages page base len f ≡ some f')
      × Appended f f'
          (pages_touched base len)
          len
          (tabulate (λ j. phys pages (page * page_size + base + j)) len)
unfolding fill_pages chunk
fill_pages_lem zero pages page base len f h small hb hp hc = absurd (omega arith)
fill_pages_lem (suc fuel) pages page base len f h small hb hp hc = elim (Bool-cases (ltb 0 len)) [
  | inl more ↦
      let touched = pages_touched_step base len hb more in
      let room : f.pos < length f.cells = omega (arith, touched) in
      let g : Fill = put_chunk (get_or pages page zero_iovec) base len f in
      let first = put_chunk-Appended pages page base len f room in
      let (f', run, rest) =
        fill_pages_lem fuel pages (page + 1) 0 (len - chunk base len) g
          (omega (arith, chunk_pos base len hb more))
          (put_chunk-small (get_or pages page zero_iovec) base len f) (omega arith)
          (omega (arith, touched)) (omega (arith, touched, first.moved, first.same_room)) in
      (
        f',
        fill_round fuel pages page base len f more (omega (arith, touched)) room ∙ run,
        Appended-round pages page base len hb more room rest,
      )
  | inr over ↦ (f, rw (over, fill_pages), Appended-none f base len _ over small)
]
