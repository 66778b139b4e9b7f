-- ===== src/Common/Accounts.antt =====
-- Who makes a request (src/domain/auth/auth-context.ts).
use Prim.Native.String.{String}

pub data Plan : Type 0 where
  free pro power : Plan

pub record AuthContext : Type 0 where
  pub tenant_id : String
  pub user_id : String
  pub plan : Plan
