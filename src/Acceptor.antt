-- ===== src/Acceptor.antt =====
-- The acceptor of asio/src/ip/details/acceptor.cc: how it prepares its socket. The members of the
-- socket that are one call of the system each are a parameter.
use lcy.Prelude.{ℕ, ◌==◌, if◌then◌else◌}
use lcy.Prelude.Int.{pos}
use lcy.Prelude.Assoc.{eqz}
use lcy.Reactor.{ErrCode, success}

-- `open` of a family, `setReuseAddr`, `bind` to an address, `listen`, `setDelay`, `setKeepAlive`
pub record Calls (World Address : Type 0) : Type 0 where
  pub family : Address → ℕ
  pub open_socket : ℕ → World → World × ErrCode
  pub set_reuse_addr : World → World × ErrCode
  pub bind : Address → World → World × ErrCode
  pub listen : ℕ → World → World × ErrCode
  pub set_delay : World → World × ErrCode
  pub set_keep_alive : World → World × ErrCode

-- `(ec) || (ec = ...)`
abbrev pub or_else :
    {World : Type 0} → World × ErrCode → (World → World × ErrCode) → World × ErrCode
or_else (w, ec) next = if eqz ec success then next w else (w, ec)

module _ {World Address : Type 0} (calls : Calls World Address) where
  abbrev pub prepare : Address → World × ErrCode → World × ErrCode
  prepare address opened =
      or_else
        (or_else
          (or_else (or_else (or_else opened calls.set_reuse_addr) (calls.bind address))
            (calls.listen 1024))
          calls.set_delay)
        calls.set_keep_alive

  -- `setup`; AF_INET is 2, AF_INET6 is 10 and EINVAL is 22.
  unfoldable pub setup : Address → World → World × ErrCode
  setup address w =
      if calls.family address == 2
      then prepare address (calls.open_socket 2 w)
      else if calls.family address == 10
      then prepare address (calls.open_socket 10 w)
      else (w, pos 22)
