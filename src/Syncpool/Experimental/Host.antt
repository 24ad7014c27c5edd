-- ===== src/Syncpool/Experimental/Host.antt =====
-- syncpool/src/experimental/host.rs: a value that goes back through a channel when it is dropped.
use byte_buffer.Prelude.{
  ℕ, ◌≡◌, Bool, not, Option, none, some, [], ◌∷◌, ◌++◌, arith, length, ltb, ◌&&◌, if◌then◌else◌,
}
use byte_buffer.Syncpool.Experimental.{
  Memory, drop_val, read, Channel, TrySendError, full, disconnected, try_send,
}

pub data Message : Type 0 where
  close : Message
  release : ℕ → Message

-- `val` is the place of the field of this name, and `chan` says if there is a sender.
pub record Host : Type 0 where
  pub val : ℕ
  pub chan : Bool

-- The host has a sender, the receiver is there, and the channel has room.
abbrev pub goes_back : Channel Message → Host → Bool
goes_back ch host = host.chan && (ch.connected && ltb (length ch.queue) ch.bound)

module _ {ℓ} {T : Type ℓ} where
  unfoldable pub drop_unsent : Memory T → Message → Option (Memory T)
  drop_unsent m close = some m
  drop_unsent m (release ptr) = drop_val m ptr

  -- What `map_err` does with the message that comes back.
  unfoldable pub take_back : Memory T → Option (TrySendError Message) → Option (Memory T)
  take_back m none = some m
  take_back m (some (full msg)) = drop_unsent m msg
  take_back m (some (disconnected msg)) = drop_unsent m msg

  -- `Drop`.
  unfoldable pub drop_host : Memory T → Channel Message → Host → Option (Memory T × Channel Message)
  drop_host m ch host =
      if not host.chan
      then elim (drop_val m host.val) [ none ↦ none | some m' ↦ some (m', ch) ]
      else let (ch', err) = try_send ch (release host.val) in
        elim (take_back m err) [ none ↦ none | some m' ↦ some (m', ch') ]

  -- A host whose value is there is dropped without an undefined read. If it
  -- has a sender, the receiver is there and the channel has room, the value is not dropped and its
  -- place is sent; otherwise the value is dropped, once, and nothing is sent.
  drop_host-once :
      (m : Memory T) (ch : Channel Message) (host : Host) (v : T)
      → read m host.val ≡ some v
      → drop_host m ch host
        ≡ some (
          record {
            places = m.places;
            dropped = if goes_back ch host then m.dropped else m.dropped ++ v ∷ [];
          },
          if goes_back ch host then record ch { queue = ch.queue ++ release host.val ∷ [] } else ch,
        )
  unfolding drop_host take_back drop_unsent
  drop_host-once m ch host v e = ground arith
