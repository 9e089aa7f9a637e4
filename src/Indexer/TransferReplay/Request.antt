-- ===== src/Indexer/TransferReplay/Request.antt =====
-- `validateTransferReplayRequest`, `buildTransferReplayRequest` and `buildTransferReplayProgress`.
-- A validated request has natural numbers; of the progress the times and the ratios, which are
-- floats, are left out.
pub mod Valid
use relay_settlement.Common.{
  ℕ, zero, suc, ◌+◌, ◌-◌, ◌≡◌, List, [], ◌∷◌, Bool, true, false, not, Option, none, some, Result,
  ok, err, and_then, ltb, if◌then◌else◌,
}
use relay_settlement.Common.Int.{ℤ, pos, negsuc}
use relay_settlement.Host.{Text}

-- A JavaScript number: an integer, or a fraction, an infinity or NaN.
pub data JsNumber : Type 0 where
  integer : ℤ → JsNumber
  fractional : JsNumber

-- A field of the input: missing, a number, a text, or something else.
pub data JsValue : Type 0 where
  missing : JsValue
  number : JsNumber → JsValue
  text : Text → JsValue
  other : JsValue

pub record Fields {ℓ} (A : Type ℓ) : Type ℓ where
  pub batch_size : A
  pub from_block : A
  pub reconcile_chunk_size : A
  pub to_block : A

abbrev pub TransferReplayRequest : Type 0
TransferReplayRequest = Fields ℕ

pub data RequestError : Type 0 where
  not_an_integer required negative_block batch_too_small chunk_too_small block_order
        range_too_large :
      RequestError

abbrev pub require_integer : JsNumber → Result RequestError ℤ
require_integer (integer z) = ok z
require_integer fractional = err not_an_integer

-- An integer that is not negative, else the error.
abbrev pub natural : RequestError → ℤ → Result RequestError ℕ
natural e (pos n) = ok n
natural e (negsuc n) = err e

abbrev pub at_least_one : RequestError → ℕ → Result RequestError ℕ
at_least_one e n = if ltb n 1 then err e else ok n

abbrev pub exceeds : Option ℕ → ℕ → Bool
exceeds none range = false
exceeds (some m) range = ltb m range

unfoldable pub validate_transfer_replay_request :
    Fields JsNumber → Option ℕ → Result RequestError TransferReplayRequest
validate_transfer_replay_request raw max_block_range =
    and_then (require_integer raw.batch_size) λ batch_size.
      and_then (require_integer raw.from_block) λ from_block.
        and_then (require_integer raw.reconcile_chunk_size) λ chunk_size.
          and_then (require_integer raw.to_block) λ to_block.
            and_then (natural negative_block from_block) λ from.
              and_then (natural negative_block to_block) λ to.
                and_then (natural batch_too_small batch_size) λ batch_number.
                  and_then (at_least_one batch_too_small batch_number) λ batch.
                    and_then (natural chunk_too_small chunk_size) λ chunk_number.
                      and_then (at_least_one chunk_too_small chunk_number) λ chunk.
                        if ltb to from
                        then err block_order
                        else if exceeds max_block_range (to - from + 1)
                        then err range_too_large
                        else ok (record {
                          batch_size = batch;
                          from_block = from;
                          reconcile_chunk_size = chunk;
                          to_block = to;
                        })

-- `Number(text)` and `text.trim()`.
pub record Numbers : Type 0 where
  pub number_of : Text → JsNumber
  pub trim : Text → Text

abbrev pub is_blank : Text → Bool
is_blank [] = true
is_blank (c ∷ cs) = false

module _ (numbers : Numbers) where
  unfoldable pub parse_integer : JsValue → Result RequestError JsNumber
  parse_integer (number n) = and_then (require_integer n) λ z. ok (integer z)
  parse_integer (text t) =
      if is_blank (numbers.trim t)
      then err not_an_integer
      else and_then (require_integer (numbers.number_of t)) λ z. ok (integer z)
  parse_integer missing = err not_an_integer
  parse_integer other = err not_an_integer

  unfoldable pub read_required_integer : JsValue → Result RequestError JsNumber
  unfolding parse_integer
  read_required_integer missing = err required
  read_required_integer v = parse_integer v

  unfoldable pub read_optional_integer : JsValue → JsNumber → Result RequestError JsNumber
  unfolding parse_integer
  read_optional_integer missing fallback = ok fallback
  read_optional_integer v fallback = parse_integer v

  unfoldable pub build_transfer_replay_request :
      Fields JsValue → JsNumber → JsNumber → Option ℕ → Result RequestError TransferReplayRequest
  unfolding read_required_integer read_optional_integer validate_transfer_replay_request
  build_transfer_replay_request input default_batch default_chunk max_block_range =
      and_then (read_optional_integer input.batch_size default_batch) λ batch.
        and_then (read_required_integer input.from_block) λ from.
          and_then (read_optional_integer input.reconcile_chunk_size default_chunk) λ chunk.
            and_then (read_required_integer input.to_block) λ to.
              validate_transfer_replay_request
                (record {
                  batch_size = batch;
                  from_block = from;
                  reconcile_chunk_size = chunk;
                  to_block = to;
                })
                max_block_range

pub record Counters : Type 0 where
  pub decoded : ℕ
  pub inserted : ℕ
  pub reconciled_addresses : ℕ
  pub skipped : ℕ

-- The last batch that was completed, if any; its last block is the current block.
pub record Batch : Type 0 where
  pub first : ℕ
  pub last : ℕ

pub record TransferReplayProgress : Type 0 where
  pub counters : Counters
  pub last_batch : Option Batch
  pub processed_blocks : ℕ
  pub remaining_blocks : ℕ
  pub total_blocks : ℕ

abbrev pub lower : ℕ → ℕ → ℕ
lower a b = if ltb b a then b else a

-- The difference stops at 0, as the maximum with 0 does.
unfoldable pub processed : TransferReplayRequest → Option Batch → ℕ
processed request none = 0
processed request (some b) = (lower b.last request.to_block + 1) - request.from_block

unfoldable pub build_transfer_replay_progress :
    TransferReplayRequest → Counters → Option Batch → TransferReplayProgress
unfolding processed
build_transfer_replay_progress request counters completed =
    let total = request.to_block - request.from_block + 1 in
    record {
      counters = counters;
      last_batch = completed;
      processed_blocks = processed request completed;
      remaining_blocks = total - processed request completed;
      total_blocks = total;
    }
