-- ===== src/Trace.antt =====
-- cpp/include/dwpdsim/trace_writer.hpp and cpp/src/trace_writer.cpp: the trace as the list of its
-- rows, the latest first. The text of a row (its commas and names) is not modelled, nor the file.

use dwpdsim.Base.{ℕ, Option, List, [], ◌∷◌, add64, mul64}
use dwpdsim.Types.{NodeId, Node, TimestampNs, Operation, StorageTier, StorageLocation, TraceReason}

pub record TraceContext : Type 0 where
  pub timestamp_ns : TimestampNs
  pub request_id : Option ℕ
  pub access_sequence : Option ℕ

-- The columns of a row.
pub record Row : Type 0 where
  pub sequence : ℕ
  pub timestamp_ns : TimestampNs
  pub request_id : Option ℕ
  pub access_sequence : Option ℕ
  pub operation : Operation
  pub storage_tier : StorageTier
  pub stream_id : ℕ
  pub offset_bytes : ℕ
  pub length_bytes : ℕ
  pub node_id : NodeId
  pub hash_id : NodeId
  pub reason : TraceReason
  pub move_id : Option ℕ
  pub depends_on_sequence : Option ℕ

pub record TraceWriter : Type 0 where
  pub block_size_bytes : ℕ
  pub next_sequence : ℕ
  pub rows : List Row

unfoldable pub new_writer : ℕ → TraceWriter
new_writer block_size = record { block_size_bytes = block_size; next_sequence = 0; rows = [] }

unfoldable pub emit :
    TraceContext
    → NodeId
    → Operation
    → Node
    → StorageLocation
    → TraceReason
    → Option ℕ
    → Option ℕ
    → TraceWriter
    → ℕ × TraceWriter
emit context node_id operation node location reason move_id depends w = (
  w.next_sequence,
  record w {
    next_sequence = add64 w.next_sequence 1;
    rows =
        record {
          sequence = w.next_sequence;
          timestamp_ns = context.timestamp_ns;
          request_id = context.request_id;
          access_sequence = context.access_sequence;
          operation = operation;
          storage_tier = location.tier;
          stream_id = location.stream_id;
          offset_bytes = mul64 location.block_address w.block_size_bytes;
          length_bytes = w.block_size_bytes;
          node_id = node_id;
          hash_id = node.hash_id;
          reason = reason;
          move_id = move_id;
          depends_on_sequence = depends;
        }
        ∷ w.rows;
  },
)

unfoldable pub event_count : TraceWriter → ℕ
event_count w = w.next_sequence
