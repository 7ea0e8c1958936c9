-- ===== src/Governance/Failure.antt =====
-- governance/failure/failure.go: the class of an invocation's error.
use mathlib.Core.Bool.{Bool, true, false}
use mathlib.Core.Option.{Option, none, some}
use keelith.Prelude.Tests.{if◌then◌else◌}

pub data Kind : Type 0 where
  no_failure : Kind
  transport : Kind
  timeout : Kind
  business : Kind
  canceled : Kind
  unknown : Kind

-- What errors.As and errors.Is find in the chain of an error: the transport mark, the two errors
-- of package context, an application error, and of a net.Error its Timeout().
pub record Chain : Type 0 where
  pub marked : Bool
  pub is_canceled : Bool
  pub is_deadline_exceeded : Bool
  pub application : Bool
  pub network : Option Bool

abbrev network_kind : Option Bool → Kind
network_kind none = unknown
network_kind (some is_timeout) = if is_timeout then timeout else transport

-- Classify; none is the nil error.
unfoldable pub classify : Option Chain → Kind
classify none = no_failure
classify (some e) =
    if e.marked
    then transport
    else if e.is_canceled
    then canceled
    else if e.is_deadline_exceeded
    then timeout
    else if e.application
    then business
    else network_kind e.network

-- Retryable
unfoldable pub retryable : Option Chain → Bool
unfolding classify
retryable e = elim (classify e) [ transport ↦ true | timeout ↦ true | _ ↦ false ]
