-- ===== src/Executor/Order.antt =====
-- include/arbitrage/common/types.hpp: exchanges, orders and their updates. Padding is left out.
use kac.Base.{ℕ, Bool, true, false, not, ◌||◌, List, ◌==◌}
use kac.Executor.Text.{max_order_id_len, max_symbol_len, copy_text, is_empty_text}

pub data Exchange : Type 0 where
  upbit : Exchange
  bithumb : Exchange
  binance : Exchange
  mexc : Exchange
  count : Exchange

unfoldable pub exchange_code : Exchange → ℕ
exchange_code upbit = 0
exchange_code bithumb = 1
exchange_code binance = 2
exchange_code mexc = 3
exchange_code count = 4

unfoldable pub same_exchange : Exchange → Exchange → Bool
same_exchange x y = exchange_code x == exchange_code y

pub is_krw_exchange : Exchange → Bool
is_krw_exchange ex = same_exchange ex upbit || same_exchange ex bithumb

pub data OrderSide : Type 0 where
  buy : OrderSide
  sell : OrderSide

unfoldable pub is_buy : OrderSide → Bool
is_buy buy = true
is_buy sell = false

pub data OrderType : Type 0 where
  limit : OrderType
  market : OrderType

pub data OrderStatus : Type 0 where
  pending : OrderStatus
  opened : OrderStatus
  partially_filled : OrderStatus
  filled : OrderStatus
  canceled : OrderStatus
  failed : OrderStatus

pub record OrderRequest (D : Type 0) : Type 0 where
  pub exchange : Exchange
  pub side : OrderSide
  pub order_type : OrderType
  pub symbol : List ℕ
  pub quantity : D
  pub price : D
  pub client_order_id : List ℕ

pub record OrderResult (D : Type 0) : Type 0 where
  pub order_id : List ℕ
  pub status : OrderStatus
  pub filled_qty : D
  pub avg_price : D
  pub commission : D
  pub timestamp_us : ℕ

pub record OrderUpdate (D : Type 0) : Type 0 where
  pub exchange : Exchange
  pub side : OrderSide
  pub status : OrderStatus
  pub is_maker : Bool
  pub order_id : List ℕ
  pub client_order_id : List ℕ
  pub filled_qty : D
  pub remaining_qty : D
  pub avg_price : D
  pub last_fill_price : D
  pub last_fill_qty : D
  pub commission : D
  pub timestamp_ms : ℕ

-- `OrderResult::is_failed`
unfoldable pub ends_badly : OrderStatus → Bool
ends_badly failed = true
ends_badly canceled = true
ends_badly other = false

-- `OrderResult::is_filled`
unfoldable pub ends_filled : OrderStatus → Bool
ends_filled filled = true
ends_filled other = false

-- `OrderUpdate::is_terminal`
unfoldable pub is_terminal : OrderStatus → Bool
is_terminal filled = true
is_terminal canceled = true
is_terminal failed = true
is_terminal other = false

module _ {D : Type 0} where
  unfoldable pub set_symbol : List ℕ → OrderRequest D → OrderRequest D
  set_symbol s order = record order { symbol = copy_text max_symbol_len s }

  unfoldable pub set_client_order_id : List ℕ → OrderRequest D → OrderRequest D
  set_client_order_id id order = record order { client_order_id = copy_text max_order_id_len id }

  unfoldable pub set_order_id : List ℕ → OrderUpdate D → OrderUpdate D
  set_order_id id update = record update { order_id = copy_text max_order_id_len id }

  unfoldable pub update_client_order_id : List ℕ → OrderUpdate D → OrderUpdate D
  update_client_order_id id update = record update {
    client_order_id = copy_text max_order_id_len id;
  }

  unfoldable pub has_client_order_id : OrderUpdate D → Bool
  has_client_order_id update = not (is_empty_text update.client_order_id)
