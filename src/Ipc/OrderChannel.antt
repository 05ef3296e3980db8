-- ===== src/Ipc/OrderChannel.antt =====
-- include/arbitrage/ipc/order_channel.hpp: the two queues between the engine and the order manager,
-- and the conversion of results. `ShmSegment(name, size, true)` unlinks what has the name, makes a
-- segment anew and fills it with zeros; a process keeps what it has mapped. The segments of a name
-- are a list, the last of which the name stands for, and system calls succeed. The times and the
-- message of an error are left out, as in the results.
pub mod Linked
pub mod OneWay
pub mod Flags
mod Tests
use kac.Base.{
  ℕ, zero, suc, ◌+◌, ◌-◌, ◌%◌, ◌^◌, Bool, true, false, not, ◌&&◌, ◌||◌, Option, none, some, List,
  [], ◌∷◌, ◌++◌, ℤ, if◌then◌else◌, get_elem?, set, length, replicate,
}
use kac.Executor.Number.{Double}
use kac.Executor.Text.{copy_text, max_order_id_len}
use kac.Executor.Order.{Exchange, OrderStatus, OrderResult, failed, ends_filled}
use kac.Executor.Result.{
  SingleOrderResult, DualOrderResult, DualOrderRequest, Error, is_success, has_value, gross_profit,
}
use kac.Ipc.Spsc.{Segment, Handle, init_producer, attach_consumer, push, pop}

pub record ShmSingleOrderResult (D : Type 0) : Type 0 where
  pub exchange : Exchange
  pub success : Bool
  pub status : OrderStatus
  pub order_id : List ℕ
  pub filled_qty : D
  pub avg_price : D
  pub commission : D
  pub error_code : ℕ

pub record ShmDualOrderResult (D : Type 0) : Type 0 where
  pub buy_result : ShmSingleOrderResult D
  pub sell_result : ShmSingleOrderResult D
  pub request_id : ℤ
  pub actual_premium : D
  pub gross_profit_krw : D

module _ {D : Type 0} where
  unfoldable pub both_success : ShmDualOrderResult D → Bool
  both_success r = r.buy_result.success && r.sell_result.success

  unfoldable pub both_filled : ShmDualOrderResult D → Bool
  both_filled r =
      r.buy_result.success
      && r.sell_result.success
      && ends_filled r.buy_result.status
      && ends_filled r.sell_result.status

  unfoldable pub partial_fill : ShmDualOrderResult D → Bool
  partial_fill r =
      r.buy_result.success && not r.sell_result.success
      || not r.buy_result.success && r.sell_result.success

module _ {D : Type 0} (num : Double D) (error_number : Error → ℕ) where
  unfoldable pub code_of : Option Error → ℕ
  code_of none = 0
  code_of (some e) = error_number e % 2 ^ 16

  unfoldable pub to_shm_single : SingleOrderResult D → ShmSingleOrderResult D
  to_shm_single src = elim src.result [
    | some r ↦ record {
      exchange = src.exchange;
      success = is_success src;
      status = r.status;
      order_id = copy_text max_order_id_len r.order_id;
      filled_qty = r.filled_qty;
      avg_price = r.avg_price;
      commission = r.commission;
      error_code = code_of src.error;
    }
    | none ↦ record {
      exchange = src.exchange;
      success = is_success src;
      status = failed;
      order_id = [];
      filled_qty = num.zero_qty;
      avg_price = num.zero_qty;
      commission = num.zero_qty;
      error_code = code_of src.error;
    }
  ]

  unfoldable pub to_shm : D → DualOrderResult D → ShmDualOrderResult D
  to_shm fx_rate src = record {
    buy_result = to_shm_single src.buy_result;
    sell_result = to_shm_single src.sell_result;
    request_id = src.request_id;
    actual_premium = src.actual_premium;
    gross_profit_krw = gross_profit num fx_rate src;
  }

-- a segment as `memset` leaves it
unfoldable pub zeroed : {A : Type 0} → A → ℕ → Segment A
zeroed zero_item capacity = record {
  header = record {
    magic = 0;
    version = 0;
    capacity = 0;
    element_size = 0;
    producer_pid = 0;
    consumer_pid = 0;
    state = 0;
  };
  head = 0;
  tail = 0;
  buffer = replicate capacity zero_item;
}

-- The segments that the two names stood for, the latest one last. `Q` are requests, `R` results.
pub record SharedMemory (Q R : Type 0) : Type 0 where
  pub orders : List (Segment Q)
  pub order_results : List (Segment R)

-- Each channel knows the segments that it has mapped.
pub record OrderChannel : Type 0 where
  pub request_shm : ℕ
  pub result_shm : ℕ
  pub request_queue : Handle
  pub result_queue : Handle

-- a call on the segment with the number, if it is there
unfoldable pub on_segment :
    {A B : Type 0} → B → (Segment A → B × Segment A) → ℕ → List (Segment A) → B × List (Segment A)
on_segment missing f i segments = elim (get_elem? segments i) [
  | none ↦ (missing, segments)
  | some s ↦ let (answer, t) = f s in (answer, set segments i t)
]

unfoldable pub valid : OrderChannel → Bool
valid ch = ch.request_queue.valid

module _ {Q R : Type 0} (no_request : Q) (no_result : R) (request_size result_size : ℕ) where
  -- Both segments are made; the results are attached to at once.
  unfoldable pub create_engine_side : ℕ → ℕ → SharedMemory Q R → OrderChannel × SharedMemory Q R
  create_engine_side pid queue_capacity m =
      let (request_queue, orders) =
        init_producer no_request request_size pid (zeroed no_request queue_capacity)
          queue_capacity in
      let (result_queue, results) =
        attach_consumer result_size pid (zeroed no_result queue_capacity) in
      (
        record {
          request_shm = length m.orders;
          result_shm = length m.order_results;
          request_queue = request_queue;
          result_queue = result_queue;
        },
        record {
          orders = m.orders ++ orders ∷ [];
          order_results = m.order_results ++ results ∷ [];
        },
      )

  -- The requests are opened, and a segment of results is made anew. Without a segment of requests
  -- the call throws.
  unfoldable pub create_order_manager_side :
      ℕ → ℕ → SharedMemory Q R → Option (OrderChannel × SharedMemory Q R)
  create_order_manager_side pid queue_capacity m =
      let latest = length m.orders - 1 in
      elim (get_elem? m.orders latest) [
        | none ↦ none
        | some s ↦
            let (request_queue, orders) = attach_consumer request_size pid s in
            let (result_queue, results) =
              init_producer no_result result_size pid (zeroed no_result queue_capacity)
                queue_capacity in
            some (
              record {
                request_shm = latest;
                result_shm = length m.order_results;
                request_queue = request_queue;
                result_queue = result_queue;
              },
              record {
                orders = set m.orders latest orders;
                order_results = m.order_results ++ results ∷ [];
              },
            )
      ]

module _ {Q R : Type 0} where
  unfoldable pub push_request : OrderChannel → Q → SharedMemory Q R → Bool × SharedMemory Q R
  push_request ch req m =
      let (done, orders) =
        on_segment false (λ s. push ch.request_queue s req) ch.request_shm m.orders in
      (done, record m { orders = orders })

  unfoldable pub pop_request : OrderChannel → SharedMemory Q R → Option Q × SharedMemory Q R
  pop_request ch m =
      let (item, orders) = on_segment none (pop ch.request_queue) ch.request_shm m.orders in
      (item, record m { orders = orders })

  unfoldable pub push_result : OrderChannel → R → SharedMemory Q R → Bool × SharedMemory Q R
  push_result ch result m =
      let (done, results) =
        on_segment false (λ s. push ch.result_queue s result) ch.result_shm m.order_results in
      (done, record m { order_results = results })

  unfoldable pub pop_result : OrderChannel → SharedMemory Q R → Option R × SharedMemory Q R
  pop_result ch m =
      let (item, results) = on_segment none (pop ch.result_queue) ch.result_shm m.order_results in
      (item, record m { order_results = results })

-- A call of one side, and what it is told.
pub data Act (Q R : Type 0) : Type 0 where
  asks : Q → Act Q R
  takes : Act Q R
  reports : R → Act Q R
  learns : Act Q R

pub data Told (Q R : Type 0) : Type 0 where
  stored : Bool → Told Q R
  request : Option Q → Told Q R
  result : Option R → Told Q R

module _ {Q R : Type 0} where
  -- The engine asks and learns, the manager takes and reports.
  unfoldable pub run :
      OrderChannel → OrderChannel → List (Act Q R) → SharedMemory Q R → List (Told Q R)
  run engine manager [] m = []
  run engine manager (asks q ∷ acts) m =
      let (done, n) = push_request engine q m in stored done ∷ run engine manager acts n
  run engine manager (takes ∷ acts) m =
      let (item, n) = pop_request manager m in request item ∷ run engine manager acts n
  run engine manager (reports r ∷ acts) m =
      let (done, n) = push_result manager r m in stored done ∷ run engine manager acts n
  run engine manager (learns ∷ acts) m =
      let (item, n) = pop_result engine m in result item ∷ run engine manager acts n
