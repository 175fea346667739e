-- ===== src/Crud/Base.antt =====
-- crud/common.go: what every crud request holds, a call. The code keeps a pointer to it, which a copy of
-- the request shares; every body sets its own arguments.
use go_tarantool.Common.{ℕ, String, Bool, Option}
use go_tarantool.Request.Call
use go_tarantool.Request.Call.{CallRequest}

pub record BaseRequest (V : Type 0) : Type 0 where
  pub impl : CallRequest V

pub record SpaceRequest (V : Type 0) : Type 0 where
  pub base : BaseRequest V
  pub space : String

module _ {V : Type 0} where
  unfoldable pub new_call : String → BaseRequest V
  unfolding Call.new_call17
  new_call method = record { impl = Call.new_call17 method }

  unfoldable pub code : BaseRequest V → ℕ
  code req = req.impl.base.request_code

  unfoldable pub request_ctx : BaseRequest V → Option ℕ
  request_ctx req = req.impl.base.ctx

  unfoldable pub async : BaseRequest V → Bool
  async req = req.impl.base.async

  unfoldable pub call_context : ℕ → BaseRequest V → BaseRequest V
  unfolding Call.context
  call_context ctx req = record req { impl = Call.context ctx req.impl }

  -- The request of a space, with its call.
  unfoldable pub new_space : String → String → SpaceRequest V
  unfolding new_call
  new_space method space = record { base = new_call method; space = space }

  unfoldable pub space_context : ℕ → SpaceRequest V → SpaceRequest V
  unfolding call_context
  space_context ctx req = record req { base = call_context ctx req.base }
