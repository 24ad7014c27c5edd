-- ===== src/Syncpool/Pool/Session.antt =====
-- Any number of calls of `get` and `put`, one after the other, at one pool.
use mathlib.Core.List.{perm_middle}
use mathlib.Core.List.Perm
use byte_buffer.Prelude.{
  ℕ, zero, suc, ◌+◌, ◌*◌, ◌%◌, ◌<◌, ◌≡◌, refl, ◌∙◌, ap, inl, inr, List, [], ◌∷◌, ◌++◌, Perm, arith,
  length, replicate,
}
use byte_buffer.Syncpool.Words.{usize_mod, wrapping_add}
use byte_buffer.Syncpool.Builder.{make_elem}
use byte_buffer.Syncpool.Bucket2.{apply_reset}
use byte_buffer.Syncpool.Pool.{SyncPool, PutResult, stored, given_back, waiting, get, put}
use byte_buffer.Syncpool.Pool.Elements.{elements, IsIdle}
use byte_buffer.Syncpool.Pool.Tried.{advance}
use byte_buffer.Syncpool.Pool.Get.{get-outcome, missed}
use byte_buffer.Syncpool.Pool.Put.{put-outcome, refused}

pub data Call {ℓ} (T : Type ℓ) : Type ℓ where
  getting : Call T
  putting : T → Call T

-- The pool, the elements that it has handed out, and those that it has taken, as it stored them.
pub record Books {ℓ} (T : Type ℓ) : Type ℓ where
  pub pool : SyncPool T
  pub out : List T
  pub kept : List T

-- The counter of `put` after some trials.
advance-lem : (n c : ℕ) → c + n < usize_mod → advance n c ≡ c + n
advance-lem zero c fits = omega arith
advance-lem (suc n) c fits =
    let step : wrapping_add c 1 ≡ c + 1 = omega arith in
    rw step (advance-lem n (c + 1) (omega arith) ∙ omega arith)

module _ {ℓ} {T : Type ℓ} where
  abbrev pub store : Books T → SyncPool T → T → PutResult T → Books T
  store s p val stored = record {
    pool = p;
    out = s.out;
    kept = apply_reset s.pool.reset_handle val ∷ s.kept;
  }
  store s p val (given_back ret) = record s { pool = p }
  store s p val (waiting ret) = record s { pool = p }

  unfoldable pub serve : T → Call T → Books T → Books T
  serve zeroed getting s =
      let (p, v) = get zeroed s.pool in record { pool = p; out = v ∷ s.out; kept = s.kept }
  serve zeroed (putting val) s = let (p, r) = put s.pool val in store s p val r

  unfoldable pub serve_all : T → List (Call T) → Books T → Books T
  serve_all zeroed [] s = s
  serve_all zeroed (c ∷ calls) s = serve_all zeroed calls (serve zeroed c s)

  abbrev pub opened : SyncPool T → Books T
  opened p = record { pool = p; out = []; kept = [] }

module _ {ℓ} {T : Type ℓ} (zeroed : T) (p : SyncPool T) where
  abbrev new_elem : T
  new_elem = make_elem zeroed p.elem_builder

  -- `k` elements have been built, and there is room in the counter of `put` for `n` more calls.
  record Balanced (n k : ℕ) (s : Books T) : Type ℓ where
    idle : IsIdle s.pool
    same_size : length s.pool.slots ≡ length p.slots
    same_builder : s.pool.elem_builder ≡ p.elem_builder
    same_reset : s.pool.reset_handle ≡ p.reset_handle
    misses : s.pool.miss_count ≡ (p.miss_count + k) % usize_mod
    room : s.pool.curr_put + length p.slots + n * (2 * length p.slots) < usize_mod
    balance :
        Perm (s.out ++ elements s.pool.slots) (replicate k new_elem ++ (s.kept ++ elements p.slots))

  module _ (n k : ℕ) (s : Books T) (b : Balanced (suc n) k s) where
    open b use {idle, same_size, same_builder, same_reset, misses, room, balance}

    serve-built :
        get zeroed s.pool ≡ (missed zeroed s.pool, make_elem zeroed s.pool.elem_builder)
        → Balanced n (suc k) (serve zeroed getting s)
    unfolding serve
    serve-built e =
        let built : make_elem zeroed s.pool.elem_builder ≡ new_elem =
          ap (make_elem zeroed) same_builder in
        rw (e, built)
          record {
            idle = record {
              some_bucket = idle.some_bucket;
              alone = idle.alone;
              lowered = idle.lowered;
              quiet = idle.quiet;
            };
            same_size = same_size;
            same_builder = same_builder;
            same_reset = same_reset;
            misses = omega (arith, misses);
            room = omega (arith, room);
            balance = Perm.cons new_elem balance;
          }

    serve-taken :
        (q : SyncPool T) (v : T)
        → get zeroed s.pool ≡ (q, v)
        → IsIdle q
        → Perm (elements s.pool.slots) (v ∷ elements q.slots)
        → length q.slots ≡ length s.pool.slots
        → q.miss_count ≡ s.pool.miss_count
        → q.curr_put ≡ s.pool.curr_put
        → q.reset_handle ≡ s.pool.reset_handle
        → q.elem_builder ≡ s.pool.elem_builder
        → Balanced n k (serve zeroed getting s)
    unfolding serve
    serve-taken q v e idle' taken size miss counter reset elems = rw e record {
      idle = idle';
      same_size = size ∙ same_size;
      same_builder = elems ∙ same_builder;
      same_reset = reset ∙ same_reset;
      misses = miss ∙ misses;
      room = omega (arith, room, counter);
      balance =
          Perm.trans (Perm.symm (perm_middle s.out (elements q.slots)))
            (Perm.trans (Perm.append_left s.out (Perm.symm taken)) balance);
    }

    serve-getting : (k' : ℕ) × Balanced n k' (serve zeroed getting s)
    serve-getting = elim (get-outcome zeroed s.pool idle) [
      | inl (e, tried) ↦ (suc k, serve-built e)
      | inr (q, v, e, idle', taken, size, miss, counter, conf, reset, elems) ↦
          (k, serve-taken q v e idle' taken size miss counter reset elems)
    ]

    abbrev kept_elem : T → T
    kept_elem = apply_reset s.pool.reset_handle

    serve-refused :
        (val : T)
        → put s.pool val ≡ (refused s.pool, given_back val)
        → Balanced n k (serve zeroed (putting val) s)
    unfolding serve
    serve-refused val e = rw e record {
      idle = record {
        some_bucket = idle.some_bucket;
        alone = idle.alone;
        lowered = idle.lowered;
        quiet = idle.quiet;
      };
      same_size = same_size;
      same_builder = same_builder;
      same_reset = same_reset;
      misses = misses;
      room = omega (arith, room, same_size, advance-lem (2 * length s.pool.slots) s.pool.curr_put);
      balance = balance;
    }

    serve-stored :
        (val : T) (q : SyncPool T)
        → put s.pool val ≡ (q, stored)
        → IsIdle q
        → Perm (elements q.slots) (kept_elem val ∷ elements s.pool.slots)
        → length q.slots ≡ length s.pool.slots
        → q.curr_put < length s.pool.slots
        → q.miss_count ≡ s.pool.miss_count
        → q.reset_handle ≡ s.pool.reset_handle
        → q.elem_builder ≡ s.pool.elem_builder
        → Balanced n k (serve zeroed (putting val) s)
    unfolding serve
    serve-stored val q e idle' more size below miss reset elems = rw e record {
      idle = idle';
      same_size = size ∙ same_size;
      same_builder = elems ∙ same_builder;
      same_reset = reset ∙ same_reset;
      misses = miss ∙ misses;
      room = omega (arith, room, below, same_size);
      balance = Perm.trans (Perm.append_left s.out more) (
          Perm.trans (perm_middle s.out (elements s.pool.slots)) (
            Perm.trans (Perm.cons (kept_elem val) balance)
              (Perm.symm (perm_middle (replicate k new_elem) (s.kept ++ elements p.slots)))));
    }

    serve-putting : (val : T) → Balanced n k (serve zeroed (putting val) s)
    serve-putting val = elim (put-outcome s.pool idle val (omega (arith, room, same_size))) [
      | inl (e, full) ↦ serve-refused val e
      | inr (q, e, idle', more, size, below, miss, counter, conf, reset, elems) ↦
          serve-stored val q e idle' more size below miss reset elems
    ]

  serve_all-Balanced :
      (calls : List (Call T)) (k : ℕ) (s : Books T)
      → Balanced (length calls) k s
      → (k' : ℕ) × Balanced 0 k' (serve_all zeroed calls s)
  unfolding serve_all
  serve_all-Balanced [] k s b = (k, b)
  serve_all-Balanced (getting ∷ calls) k s b =
      let (k', b') = serve-getting (length calls) k s b in
      serve_all-Balanced calls k' (serve zeroed getting s) b'
  serve_all-Balanced (putting val ∷ calls) k s b =
      serve_all-Balanced calls k (serve zeroed (putting val) s)
        (serve-putting (length calls) k s b val)

  -- Whatever calls of `get` and `put` an idle pool serves, one after the other, if its miss count
  -- is a machine word and the counter of `put` does not come to wrap, the pool is idle at the end
  -- with as many buckets, and what it has handed out and what it holds are, up to order, what it
  -- held at first, the elements that it stored, and one new element for each miss that it counted:
  -- no element is lost, and none is handed out twice.
  pub serve_all-balances :
      (calls : List (Call T))
      → IsIdle p
      → p.miss_count < usize_mod
      → p.curr_put + length p.slots + length calls * (2 * length p.slots) < usize_mod
      → (let s = serve_all zeroed calls (opened p) in
          IsIdle s.pool
          × (length s.pool.slots ≡ length p.slots)
          × ((k : ℕ) × (s.pool.miss_count ≡ (p.miss_count + k) % usize_mod)
              × Perm
                  (s.out ++ elements s.pool.slots)
                  (replicate k (make_elem zeroed p.elem_builder) ++ (s.kept ++ elements p.slots))))
  serve_all-balances calls idle small room =
      let (k, b) = serve_all-Balanced calls 0 (opened p) record {
        idle = idle;
        same_size = refl;
        same_builder = refl;
        same_reset = refl;
        misses = omega arith;
        room = room;
        balance = Perm.rfl;
      } in
      (b.idle, b.same_size, (k, b.misses, b.balance))
