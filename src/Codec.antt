-- ===== src/Codec.antt =====
-- The message types of src/core/types.h and the messages of src/codec/sbe_messages.h. The fields
-- `pad_` and `pad` are left out: nothing reads them.
use trade_feed.Prelude.{ℕ}
use trade_feed.Types.{Side, buy, OrderType}

-- An enumerator, or a byte that is the value of none.
pub data MessageType : Type 0 where
  new_order cancel_order modify_order : MessageType
  order_accepted order_canceled order_executed order_rejected : MessageType
  unnamed : ℕ → MessageType

pub record InboundMessage : Type 0 where
  pub type : MessageType
  pub side : Side
  pub order_type : OrderType
  pub client_id : ℕ
  pub order_id : ℕ
  pub price : ℕ
  pub quantity : ℕ
  pub recv_tsc : ℕ

pub record OutboundMessage : Type 0 where
  pub type : MessageType
  pub aggressor_side : Side
  pub reject_reason : ℕ
  pub client_id : ℕ
  pub order_id : ℕ
  pub price : ℕ
  pub quantity : ℕ
  pub match_number : ℕ
  pub engine_tsc : ℕ

-- `OutboundMessage m{}`.
abbrev pub blank_message : OutboundMessage
blank_message = record {
  type = unnamed 0;
  aggressor_side = buy;
  reject_reason = 0;
  client_id = 0;
  order_id = 0;
  price = 0;
  quantity = 0;
  match_number = 0;
  engine_tsc = 0;
}

-- A packed message of 32 bytes.
pub record WireMessage : Type 0 where
  pub type : ℕ
  pub side : ℕ
  pub order_type : ℕ
  pub pad : ℕ
  pub client_id : ℕ
  pub order_id : ℕ
  pub price : ℕ
  pub quantity : ℕ
  pub timestamp : ℕ
