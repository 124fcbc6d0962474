-- ===== src/Tenants/Contexts.antt =====
-- backend/src/app/tenants/contexts.py: the identity that each door resolves.
use honest_agent.Py.Str.{Str}

-- The logged-in owner.
pub record OwnerRequestContext : Type 0 where
  pub tenant_id : Str
  pub user_id : Str

-- An anonymous visitor.
pub record VisitorRequestContext : Type 0 where
  pub tenant_id : Str
  pub query : Str

-- An external AI caller.
pub record ExternalCallerContext : Type 0 where
  pub tenant_id : Str
