-- ===== src/Output/Handles.antt =====
-- `create_logger` and `create_async_logger` of src/Zyrnix.cpp and `AsyncLogger` of
-- include/Zyrnix/async/async_logger.hpp. A `LoggerPtr` is the place of its logger on a heap, so that
-- who holds the same pointer sees the same logger. The configuration is not used.
use zyrnix.Prelude.{
  ℕ, Bool, false, Option, none, some, List, [], ◌∷◌, ◌++◌, Text, length, get_elem?, set,
}
use zyrnix.Context.{ContextMap}
use zyrnix.Health.{HealthRegistry}
use zyrnix.Health.Entries.{auto_register}
use zyrnix.Logger.{Logger, init, add_sink}
use zyrnix.Logger.Logging.{log_trace, log_debug, log_info, log_warn, log_error, log_critical}

pub record AsyncLogger : Type 0 where
  pub logger : ℕ

unfoldable pub create_logger : List Logger → Text → List Logger × ℕ
create_logger heap name = (heap ++ init name ∷ [], length heap)

unfoldable pub create_async_logger : ℕ → AsyncLogger
create_async_logger logger = record { logger = logger }

-- `Logger::create_stdout_logger` and `Logger::create_async` of src/logger.cpp: the new logger, and the
-- registry of health, where it is entered if that is enabled.
unfoldable pub create_stdout_logger {ℓ} :
    {F : Type ℓ} → HealthRegistry F → Text → Logger × HealthRegistry F
create_stdout_logger g name = (
  add_sink (init name) (some (record { is_cloud_sink = false; received = [] })) [],
  auto_register g name,
)

unfoldable pub create_async {ℓ} : {F : Type ℓ} → HealthRegistry F → Text → Logger × HealthRegistry F
create_async g name = (init name, auto_register g name)

-- A call on the logger of a place; `none` if there is none or the call does not return.
unfoldable pub through : List Logger → ℕ → (Logger → Option Logger) → Option (List Logger)
through heap place call = elim (get_elem? heap place) [
  | none ↦ none
  | some l ↦ elim (call l) [ none ↦ none | some m ↦ some (set heap place m) ]
]

module _ (valid : Bool → Text → Bool) (search : Bool → Text → Text → Bool)
    (substitute : Text → Text → Text) (context : ContextMap) where
  unfoldable pub async_trace : List Logger → AsyncLogger → ℕ → Text → Option (List Logger)
  async_trace heap a now msg =
      through heap a.logger (λ l. log_trace valid search substitute context l now msg)

  unfoldable pub async_debug : List Logger → AsyncLogger → ℕ → Text → Option (List Logger)
  async_debug heap a now msg =
      through heap a.logger (λ l. log_debug valid search substitute context l now msg)

  unfoldable pub async_info : List Logger → AsyncLogger → ℕ → Text → Option (List Logger)
  async_info heap a now msg =
      through heap a.logger (λ l. log_info valid search substitute context l now msg)

  unfoldable pub async_warn : List Logger → AsyncLogger → ℕ → Text → Option (List Logger)
  async_warn heap a now msg =
      through heap a.logger (λ l. log_warn valid search substitute context l now msg)

  unfoldable pub async_error : List Logger → AsyncLogger → ℕ → Text → Option (List Logger)
  async_error heap a now msg =
      through heap a.logger (λ l. log_error valid search substitute context l now msg)

  unfoldable pub async_critical : List Logger → AsyncLogger → ℕ → Text → Option (List Logger)
  async_critical heap a now msg =
      through heap a.logger (λ l. log_critical valid search substitute context l now msg)
