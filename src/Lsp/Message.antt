-- ===== src/Lsp/Message.antt =====
-- p1/src/github.com/cmu440/lsp/message.go and params.go: what goes over the network, and the
-- parameters of a connection. A payload is a list of bytes.
use projects.Common.{ℕ, List, []}

pub data MsgType : Type 0 where
  msg_connect msg_data msg_ack : MsgType

abbrev pub Payload : Type 0
Payload = List ℕ

pub record Message : Type 0 where
  pub type : MsgType
  pub conn_id : ℕ
  pub seq_num : ℕ
  pub payload : Payload

abbrev pub new_connect : Message
new_connect = record { type = MsgType.msg_connect; conn_id = 0; seq_num = 0; payload = [] }

abbrev pub new_data : ℕ → ℕ → Payload → Message
new_data conn_id seq_num payload = record {
  type = MsgType.msg_data;
  conn_id = conn_id;
  seq_num = seq_num;
  payload = payload;
}

abbrev pub new_ack : ℕ → ℕ → Message
new_ack conn_id seq_num = record {
  type = MsgType.msg_ack;
  conn_id = conn_id;
  seq_num = seq_num;
  payload = [];
}

pub record Params : Type 0 where
  pub epoch_limit : ℕ
  pub epoch_millis : ℕ
  pub window_size : ℕ

abbrev pub new_params : Params
new_params = record { epoch_limit = 5; epoch_millis = 2000; window_size = 1 }
