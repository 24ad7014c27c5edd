-- ===== src/Syncpool/Experimental/Chain.antt =====
-- syncpool/src/experimental/chain.rs: containers that go back through a channel when they are
-- dropped, the pool's `get`, which reads them out of it, and the slots of its list.
use byte_buffer.Prelude.{
  ℕ, ◌≡◌, Bool, true, false, not, Option, none, some, List, [], ◌∷◌, ◌++◌, if◌then◌else◌,
}
use byte_buffer.Syncpool.Experimental.{
  Memory, place, drop_val, end_storage, read, Channel, TrySendError, full, disconnected, try_send,
  try_recv,
}

pub data Message : Type 0 where
  shutdown : Message
  release : ℕ → Message

-- `val` is the place of the field of this name, and `chan` says if there is a sender.
pub record Container : Type 0 where
  pub val : ℕ
  pub chan : Bool

-- `val` is the pointer to a wrapper, and `next` is `none` for a null pointer.
pub record Slot : Type 0 where
  pub val : ℕ
  pub next : Option ℕ

pub record Inner : Type 0 where
  pub head : Option ℕ
  pub tail : Option ℕ
  pub chan : Channel Message
  pub close : Bool

module _ {ℓ} {T : Type ℓ} where
  unfoldable pub drop_unsent : Memory T → Message → Option (Memory T)
  drop_unsent m shutdown = some m
  drop_unsent m (release ptr) = drop_val m ptr

  -- What `map_err` does with the message that comes back.
  unfoldable pub take_back : Memory T → Option (TrySendError Message) → Option (Memory T)
  take_back m none = some m
  take_back m (some (full msg)) = drop_unsent m msg
  take_back m (some (disconnected msg)) = drop_unsent m msg

  -- `Drop`.
  unfoldable pub drop_container :
      Memory T → Channel Message → Container → Option (Memory T × Channel Message)
  drop_container m ch c =
      if not c.chan
      then elim (drop_val m c.val) [ none ↦ none | some m' ↦ some (m', ch) ]
      else let (ch', err) = try_send ch (release c.val) in
        elim (take_back m err) [ none ↦ none | some m' ↦ some (m', ch') ]

  -- `Slot::new`: the wrapper is a variable of the function, and its storage ends with the call.
  unfoldable pub new_slot : Memory T → T → Memory T × Slot
  new_slot m val =
      let (m', wrapper) = place m val in
      (end_storage m' wrapper, record { val = wrapper; next = none })

  -- `Slot::take`, with the channel of the sender that it is given.
  unfoldable pub take : Memory T → Slot → Option (Memory T × Container)
  take m slot = elim (read m slot.val) [
    | none ↦ none
    | some v ↦ let (m', val) = place m v in some (m', record { val = val; chan = true })
  ]

  -- `Container::default`, from the default value of the element type.
  unfoldable pub default_container : T → Memory T → Memory T × Container
  default_container d m = let (m', val) = place m d in (m', record { val = val; chan = false })

  -- What `Inner::get` makes of the answer of `try_recv`.
  unfoldable pub receive :
      T → Memory T → Inner → Option Message → Option (Memory T × Inner × Container)
  receive d m inner none = let (m', c) = default_container d m in some (m', inner, c)
  receive d m inner (some shutdown) =
      let (m', c) = default_container d m in some (m', record inner { close = true }, c)
  receive d m inner (some (release p)) = elim (read m p) [
    | none ↦ none
    | some v ↦ let (m', val) = place m v in some (m', inner, record { val = val; chan = true })
  ]

  -- `Inner::get`.
  unfoldable pub get : T → Memory T → Inner → Option (Memory T × Inner × Container)
  get d m inner =
      let (closed, c) = default_container d m in
      let (chan, msg) = try_recv inner.chan in
      if inner.close
      then some (closed, inner, c)
      else receive d m (record inner { chan = chan }) msg

  -- The states, with the containers that are out, that calls of `get` and drops of containers that
  -- `get` has given lead to from a pool with an empty channel. No code calls `Slot::take`.
  pub data Uses (d : T) : Memory T → Inner → List Container → Type ℓ where
    fresh : (m : Memory T) (inner : Inner) → inner.chan.queue ≡ [] → Uses d m inner []
    got :
        {m m' : Memory T} {inner inner' : Inner} {out : List Container} (c : Container)
        → Uses d m inner out
        → get d m inner ≡ some (m', inner', c)
        → Uses d m' inner' (c ∷ out)
    given_back :
        {m m' : Memory T} {inner : Inner} {out : List Container} {ch : Channel Message}
        (before after : List Container) (c : Container)
        → Uses d m inner out
        → out ≡ before ++ c ∷ after
        → drop_container m inner.chan c ≡ some (m', ch)
        → Uses d m' (record inner { chan = ch }) (before ++ after)
