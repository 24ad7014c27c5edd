-- ===== src/ByteBuffer/Bucket/Chain.antt =====
-- The chain that `build_chain` makes.
use byte_buffer.Prelude.{
  ℕ, zero, suc, ◌+◌, ◌-◌, ◌<◌, ◌≡◌, ◌≢◌, refl, subst, ap, ◌∙◌, Option, none, some, List, [], ◌∷◌,
  ◌++◌, arith, length, length-append, length-set, get_elem?, get_elem?-lt, get_elem?-set_self,
  get_elem?-set_ne, get-append, get-append_last, if◌then◌else◌, ◌==◌,
}
use byte_buffer.ByteBuffer.Bucket.{
  Bucket, Heap, make_buffer, make_buffers, new, boxed_new, store_next, grow_chain, build_chain,
}

-- At `p` stands an unused bucket whose next one is `next`.
pub record Node (h : Heap) (p : ℕ) (next : Option ℕ) : Type 0 where
  pub bucket : Bucket
  pub here : get_elem? h.buckets p ≡ some bucket
  pub links : bucket.next ≡ next
  pub sixteen : length bucket.stores ≡ 16
  pub unused : bucket.bitmap ≡ 0xffff

make_buffers-lem :
    (n size : ℕ) (base : List ℕ) (h : Heap)
    → ((make_buffers n size base h).0.buckets ≡ h.buckets)
      × (length (make_buffers n size base h).1 ≡ length base + n)
unfolding make_buffers make_buffer
make_buffers-lem zero size base h = (refl, omega arith)
make_buffers-lem (suc n) size base h =
    let (same, count) =
      make_buffers-lem n size (base ++ length h.buffers ∷ []) (make_buffer size h).0 in
    (same, omega (arith, count, length-append base (length h.buffers ∷ [])))

record Made (h h' : Heap) (p : ℕ) : Type 0 where
  at_end : p ≡ length h.buckets
  one_more : length h'.buckets ≡ length h.buckets + 1
  node : Node h' p none
  kept : (j : ℕ) → j < length h.buckets → get_elem? h'.buckets j ≡ get_elem? h.buckets j

boxed_new-Made : (size : ℕ) (h : Heap) → Made h (boxed_new size h).0 (boxed_new size h).1
unfolding boxed_new new
boxed_new-Made size h =
    let (same, count) = make_buffers-lem 16 size [] h in
    let made = make_buffers 16 size [] h in
    let b : Bucket = record { stores = made.1; bitmap = 0xffff; next = none } in
    record {
      at_end = ap length same;
      one_more = omega (arith, length-append made.0.buckets (b ∷ []), ap length same);
      node = record {
        bucket = b;
        here = get-append_last made.0.buckets b;
        links = refl;
        sixteen = omega (arith, count);
        unused = refl;
      };
      kept = λ j lt.
          get-append made.0.buckets (b ∷ []) j (omega (arith, ap length same))
          ∙ ap (λ l. get_elem? l j) same;
    }

-- The heap after the loop: `n` buckets more, each linked to the one after it.
record Grown (h h' : Heap) (tail n tail' : ℕ) : Type 0 where
  last : tail' ≡ tail + n
  count : length h'.buckets ≡ tail + n + 1
  linked : (j : ℕ) → j < n → Node h' (tail + j) (some (tail + j + 1))
  ended : Node h' (tail + n) none
  kept : (j : ℕ) → j < tail → get_elem? h'.buckets j ≡ get_elem? h.buckets j

kept-Node :
    (h h' : Heap) (p : ℕ) (next : Option ℕ)
    → Node h p next
    → get_elem? h'.buckets p ≡ get_elem? h.buckets p
    → Node h' p next
kept-Node h h' p next node same = record {
  bucket = node.bucket;
  here = same ∙ node.here;
  links = node.links;
  sixteen = node.sixteen;
  unused = node.unused;
}

record Stored (h h' : Heap) (p next : ℕ) : Type 0 where
  stored : Node h' p (some next)
  others : (j : ℕ) → p ≢ j → get_elem? h'.buckets j ≡ get_elem? h.buckets j
  same_count : length h'.buckets ≡ length h.buckets

store_next-Stored : (p next : ℕ) (h : Heap) → Node h p none → Stored h (store_next p next h) p next
unfolding store_next
store_next-Stored p next h node =
    let b : Bucket = record node.bucket { next = some next } in
    rw (node.here, store_next)
      (record {
        stored = record {
          bucket = b;
          here = get_elem?-set_self h.buckets p b (get_elem?-lt h.buckets p node.here);
          links = refl;
          sixteen = node.sixteen;
          unused = node.unused;
        };
        others = λ j ne. get_elem?-set_ne h.buckets b ne;
        same_count = length-set h.buckets p b;
      })

first_or_later :
    (n tail next : ℕ) (h : Heap)
    → next ≡ tail + 1
    → Node h tail (some next)
    → ((j : ℕ) → j < n → Node h (next + j) (some (next + j + 1)))
    → (j : ℕ) → j < suc n
    → Node h (tail + j) (some (tail + j + 1))
first_or_later n tail next h e first later zero lt =
    let here : tail ≡ tail + 0 = omega arith in
    let link : next ≡ tail + 0 + 1 = omega arith in
    subst (λ q. Node h (tail + 0) (some q)) link (subst (λ q. Node h q (some next)) here first)
first_or_later n tail next h e first later (suc j) lt =
    let here : next + j ≡ tail + suc j = omega arith in
    subst (λ q. Node h q (some (q + 1))) here (later j (omega arith))

grow_chain-Grown :
    (n size tail : ℕ) (h : Heap)
    → length h.buckets ≡ tail + 1
    → Node h tail none
    → Grown h (grow_chain n size tail h).0 tail n (grow_chain n size tail h).1
unfolding grow_chain store_next
grow_chain-Grown zero size tail h e node =
    let same : tail + 0 ≡ tail = omega arith in
    record {
      last = omega arith;
      count = omega arith;
      linked = λ j lt. absurd (omega arith);
      ended = rw same node;
      kept = λ j lt. refl;
    }
grow_chain-Grown (suc n) size tail h e node =
    let made = boxed_new-Made size h in
    let h1 = (boxed_new size h).0 in
    let next = (boxed_new size h).1 in
    let at_next : next ≡ tail + 1 = made.at_end ∙ e in
    let old = kept-Node h h1 tail none node (made.kept tail (omega arith)) in
    let set = store_next-Stored tail next h1 old in
    let h2 = store_next tail next h1 in
    let new_node = kept-Node h1 h2 next none made.node (set.others next (omega arith)) in
    let rest =
      grow_chain-Grown n size next h2 (omega (arith, set.same_count, made.one_more)) new_node in
    let h3 = (grow_chain n size next h2).0 in
    record {
      last = omega (arith, rest.last);
      count = omega (arith, rest.count);
      linked = λ j lt.
          first_or_later n tail next h3 at_next
            (kept-Node h2 h3 tail (some next) set.stored (rest.kept tail (omega arith))) rest.linked
            j lt;
      ended =
          let same : next + n ≡ tail + suc n = omega arith in
          subst (λ q. Node h3 q none) same rest.ended;
      kept = λ j lt.
          rest.kept j (omega arith) ∙ set.others j (omega arith) ∙ made.kept j (omega arith);
    }

-- Following the links from `head`: `n` buckets in a row, the last with nothing after it.
pub record IsChain (h : Heap) (head n : ℕ) : Type 0 where
  pub linked : (j : ℕ) → j + 1 < n → Node h (head + j) (some (head + j + 1))
  pub ended : Node h (head + (n - 1)) none

-- `build_chain` makes as many buckets as it is asked for, and one if it is asked for none: they are
-- unused, have sixteen buffers each, and are linked one after the other from the head to the tail,
-- which has no next one. No bucket that was there before is touched.
pub build_chain-IsChain :
    (count size : ℕ) (h : Heap)
    → (h' : Heap) × (head : ℕ) × (tail : ℕ) × (n : ℕ) × (build_chain count size h
        ≡ (h', head, tail))
      × (n ≡ (if count == 0 then 1 else count))
      × (tail ≡ head + (n - 1))
      × IsChain h' head n
      × ((j : ℕ) → j < length h.buckets → get_elem? h'.buckets j ≡ get_elem? h.buckets j)
unfolding build_chain
build_chain-IsChain count size h =
    let made = boxed_new-Made size h in
    let h1 = (boxed_new size h).0 in
    let head = (boxed_new size h).1 in
    let grown =
      grow_chain-Grown (count - 1) size head h1 (omega (arith, made.one_more, made.at_end))
        made.node in
    let same : count - 1 + 1 - 1 ≡ count - 1 = omega arith in
    (
      (grow_chain (count - 1) size head h1).0,
      head,
      (grow_chain (count - 1) size head h1).1,
      count - 1 + 1,
      refl,
      ground arith,
      omega (arith, grown.last),
      record { linked = λ j lt. grown.linked j (omega arith); ended = rw same grown.ended },
      λ j lt. grown.kept j (omega (arith, made.at_end)) ∙ made.kept j lt,
    )
