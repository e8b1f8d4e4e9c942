-- ===== src/Session/Network.antt =====
-- src/dht/dht.proto: the messages, and the stub of the service as an interface. A call names the
-- endpoint that it goes to. `none` is a status that is not ok.
use distft.Prelude.{ℕ, Bool, List, Option}
use distft.Key.{Text}

pub record RpcPeer : Type 0 where
  pub key : Text
  pub endpoint : Text

pub record FindNodeRequest : Type 0 where
  pub sender : RpcPeer
  pub search_key : Text

pub record FindNodeResponse : Type 0 where
  pub receiver : RpcPeer
  pub closest_peers : List RpcPeer

pub record FindValueRequest : Type 0 where
  pub sender : RpcPeer
  pub search_key : Text

-- `size` is the bit pattern of an `int32`.
pub record FindValueResponse : Type 0 where
  pub receiver : RpcPeer
  pub found_value : Bool
  pub content : Text
  pub size : ℕ
  pub closest_peers : List RpcPeer

pub record StoreInitRequest : Type 0 where
  pub sender : RpcPeer
  pub chunk_key : Text

pub record StoreInitResponse : Type 0 where
  pub receiver : RpcPeer
  pub continue_store : Bool

-- `size` is the bit pattern of an `int32`, `original_publish` a number of seconds.
pub record StoreRequest : Type 0 where
  pub sender : RpcPeer
  pub chunk_key : Text
  pub content : Text
  pub size : ℕ
  pub original_publish : ℕ

pub record StoreResponse : Type 0 where
  pub receiver : RpcPeer

pub record PingRequest : Type 0 where
  pub sender : RpcPeer

pub record PingResponse : Type 0 where
  pub receiver : RpcPeer

-- The stub, over the state of the network, and the clock.
pub record Network : Type 1 where
  pub World : Type 0
  pub clock : World → ℕ
  pub call_find_node : World → Text → FindNodeRequest → Option FindNodeResponse × World
  pub call_find_value : World → Text → FindValueRequest → Option FindValueResponse × World
  pub call_store_init : World → Text → StoreInitRequest → Option StoreInitResponse × World
  pub call_store : World → Text → StoreRequest → Option StoreResponse × World
  pub call_ping : World → Text → PingRequest → Option PingResponse × World
