-- ===== src/Manager/Tunnel.antt =====
-- The manager's side of a tunnel connection: `TunnelConn` of src/oumigo/service/manager/tunnel.py. A
-- text is the list of its bytes, and the empty one is the end of the file. A read with nothing queued
-- waits, here `none`. The WebSocket and its errors are left out: a message or the end comes from it.
pub mod Stream
mod Tests
use oumigo.Prelude.{
  ℕ, zero, suc, ◌+◌, String, Bool, true, false, ◌||◌, not, Option, none, some, List, [], ◌∷◌, ◌++◌,
  if◌then◌else◌,
}

abbrev pub Bytes : Type 0
Bytes = List ℕ

pub record TunnelConn : Type 0 where
  pub node_id : String
  pub incoming : List Bytes
  pub pending : Bytes
  pub closed : Bool
  pub borrowed : Bool

pub conn : String → TunnelConn
conn node_id = record {
  node_id = node_id;
  incoming = [];
  pending = [];
  closed = false;
  borrowed = false;
}

abbrev pub is_empty {ℓ} : {A : Type ℓ} → List A → Bool
is_empty [] = true
is_empty (x ∷ xs) = false

-- A round of the loop of `pump`: a message with these bytes.
pub pump_data : Bytes → TunnelConn → TunnelConn
pump_data [] c = c
pump_data (b ∷ bytes) c = record c { incoming = c.incoming ++ (b ∷ bytes) ∷ [] }

-- The end of `pump`.
pub pump_end : TunnelConn → TunnelConn
pump_end c = record c { closed = true; incoming = c.incoming ++ [] ∷ [] }

readable : TunnelConn → Bool
readable c = not (is_empty c.pending) || (not (is_empty c.incoming) || c.closed)

-- `t[:n]` and `t[n:]`.
pub split_at : ℕ → Bytes → Bytes × Bytes
split_at zero bytes = ([], bytes)
split_at (suc n) [] = ([], [])
split_at (suc n) (b ∷ bytes) = let (taken, left) = split_at n bytes in (b ∷ taken, left)

-- The end of `read`.
pub read_pending : ℕ → Bytes → TunnelConn → TunnelConn × Bytes
read_pending max_bytes pending c =
    let (bytes, left) = split_at max_bytes pending in (record c { pending = left }, bytes)

-- `read` with what is queued, where nothing is pending.
pub read_queued : ℕ → List Bytes → TunnelConn → Option (TunnelConn × Bytes)
read_queued max_bytes [] c = none
read_queued max_bytes ([] ∷ queue) c =
    some (record c { incoming = queue ++ [] ∷ []; pending = [] }, [])
read_queued max_bytes ((b ∷ bytes) ∷ queue) c =
    some (read_pending max_bytes (b ∷ bytes) (record c { incoming = queue }))

pub read_from : ℕ → Bytes → TunnelConn → Option (TunnelConn × Bytes)
read_from max_bytes [] c = read_queued max_bytes c.incoming c
read_from max_bytes (b ∷ bytes) c = some (read_pending max_bytes (b ∷ bytes) c)

pub read : ℕ → TunnelConn → Option (TunnelConn × Bytes)
read max_bytes c = read_from max_bytes c.pending c

-- What `write` does: it raises once the connection is closed, else sends the bytes.
write : Bytes → TunnelConn → Option Bytes
write bytes c = if c.closed then none else some bytes

-- `close`, and whether it closes the WebSocket.
pub close : TunnelConn → TunnelConn × Bool
close c = if c.closed then (c, false) else (record c { closed = true }, true)

-- What the endpoint and the router do with a connection; the pump ends once.
pub data ConnStep : Type 0 where
  receives : Bytes → ConnStep
  ends closes : ConnStep
  reads : ℕ → ConnStep
