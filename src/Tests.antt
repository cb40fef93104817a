-- ===== src/Tests.antt =====
-- Tests and instances of the theorems at concrete inputs.
mod MfaTests
mod QueueTests
mod SessionTests
mod StreamTests
mod TokenTests
mod ToyTree
mod RepoTests
mod BlobTests
mod AccountTests
mod LegacyTests
mod InviteTests
mod SignInTests
mod SubscriptionTests
