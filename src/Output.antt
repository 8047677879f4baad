-- ===== src/Output.antt =====
-- The sinks that pass a line on: src/sinks/stdout_sink.cpp with src/color.cpp,
-- src/sinks/udp_sink.cpp, src/sinks/syslog_sink.cpp, and multi_sink.hpp and null_sink.hpp of
-- include/Zyrnix/sinks. What a call does outside is an effect at the end of a list; the text of the
-- time of a line that is printed is an argument, by the number of effects before. A cloud sink counts
-- as what it is handed. A sink that holds itself, whose `log` does not end, is not modelled.
pub mod Flatten
pub mod Hidden
pub mod Handles
mod Tests
use zyrnix.Prelude.{
  ℕ, zero, suc, ◌+◌, Bool, true, false, Option, none, some, List, [], ◌∷◌, ◌++◌, if◌then◌else◌,
  ◌==◌, Text, codes, length,
}
use zyrnix.Level.{LogLevel, trace, debug, info, warn, error, critical}
use zyrnix.Files.{format}

pub data Color : Type 0 where
  no_color red yellow blue green : Color

-- The escape character and `[`.
abbrev pub escape : Text → Text
escape parameters = 27 ∷ 91 ∷ parameters

unfoldable pub apply_color : Text → Color → Text
apply_color text no_color = text
apply_color text red = escape (codes "31m") ++ text ++ escape (codes "0m")
apply_color text yellow = escape (codes "33m") ++ text ++ escape (codes "0m")
apply_color text blue = escape (codes "34m") ++ text ++ escape (codes "0m")
apply_color text green = escape (codes "32m") ++ text ++ escape (codes "0m")

-- The choice of `StdoutSink::log`.
unfoldable pub level_color : LogLevel → Color
level_color trace = no_color
level_color debug = no_color
level_color info = no_color
level_color warn = yellow
level_color error = red
level_color critical = red

-- The priorities of syslog that the sink uses.
pub data Priority : Type 0 where
  log_debug log_info log_warning log_err log_crit : Priority

unfoldable pub map_level : LogLevel → Priority
map_level trace = log_debug
map_level debug = log_debug
map_level info = log_info
map_level warn = log_warning
map_level error = log_err
map_level critical = log_crit

-- `c_str()` as a C function reads it: up to the first zero.
unfoldable pub c_str : Text → Text
c_str [] = []
c_str (c ∷ t) = let rest = c_str t in if c == 0 then [] else c ∷ rest

unfoldable pub named_line : Text → Text → Text
named_line logger_name message = elim logger_name [
  | [] ↦ message
  | c ∷ t ↦ (c ∷ t) ++ codes ": " ++ message
]

-- An address is its number.
pub record UdpSink : Type 0 where
  pub sockfd : Option ℕ
  pub dest : Option ℕ
  pub initialized : Bool

unfoldable pub first_socket : (ℕ → Option ℕ) → List ℕ → UdpSink
first_socket socket [] = record { sockfd = none; dest = none; initialized = false }
first_socket socket (p ∷ ps) = elim (socket p) [
  | none ↦ first_socket socket ps
  | some fd ↦ record { sockfd = some fd; dest = some p; initialized = true }
]

-- The constructor, of what `getaddrinfo` finds and the sockets that `socket` makes.
unfoldable pub open_udp : Option (List ℕ) → (ℕ → Option ℕ) → UdpSink
open_udp resolved socket = elim resolved [
  | none ↦ record { sockfd = none; dest = none; initialized = false }
  | some ps ↦ first_socket socket ps
]

mutual
  pub data Sink : Type 0 where
    null_sink : Sink
    stdout_sink : Sink
    udp_sink : UdpSink → Sink
    syslog_sink : Text → Sink
    cloud_sink : ℕ → Sink
    multi_sink : Sinks → Sink

  pub data Sinks : Type 0 where
    nil : Sinks
    cons : Sink → Sinks → Sinks

-- `MultiSink::add_sink`.
unfoldable pub add_sink : Sinks → Sink → Sinks
add_sink nil s = cons s nil
add_sink (cons t ts) s = cons t (add_sink ts s)

unfoldable pub is_cloud_sink : Sink → Bool
is_cloud_sink null_sink = false
is_cloud_sink stdout_sink = false
is_cloud_sink (udp_sink u) = false
is_cloud_sink (syslog_sink ident) = false
is_cloud_sink (cloud_sink id) = true
is_cloud_sink (multi_sink ss) = false

-- A line on the standard output, a datagram from a socket to an address, a call of `syslog`, or a
-- message that a cloud sink takes.
pub data Effect : Type 0 where
  prints : Text → Effect
  sends : Option ℕ → Option ℕ → Text → Effect
  reports : Text → Priority → Text → Effect
  takes : ℕ → Text → Effect

module _ (time : ℕ → Text) where
  unfoldable pub stdout_log : Text → LogLevel → Text → List Effect → List Effect
  stdout_log name level message done =
      done
      ++ prints (
          apply_color (format (time (length done)) name level message) (level_color level)
          ++ codes "\n")
        ∷ []

  unfoldable pub udp_log : UdpSink → Text → LogLevel → Text → List Effect → List Effect
  udp_log u logger_name level message done =
      if u.initialized
      then done ++ sends u.sockfd u.dest (named_line logger_name message ++ codes "\n") ∷ []
      else done

  unfoldable pub syslog_log : Text → Text → LogLevel → Text → List Effect → List Effect
  syslog_log ident logger_name level message done =
      done ++ reports ident (map_level level) (c_str (named_line logger_name message)) ∷ []

  -- `log` of each class, and the loop of the multi sink.
  unfoldable mutual
    pub log : Sink → Text → LogLevel → Text → List Effect → List Effect
    log null_sink name level message done = done
    log stdout_sink name level message done = stdout_log name level message done
    log (udp_sink u) name level message done = udp_log u name level message done
    log (syslog_sink ident) name level message done = syslog_log ident name level message done
    log (cloud_sink id) name level message done = done ++ takes id message ∷ []
    log (multi_sink ss) name level message done = log_each ss name level message done

    pub log_each : Sinks → Text → LogLevel → Text → List Effect → List Effect
    log_each nil name level message done = done
    log_each (cons s ss) name level message done =
        log_each ss name level message (log s name level message done)
