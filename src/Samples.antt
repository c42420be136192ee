-- ===== src/Samples.antt =====
-- Tests of the definitions on small inputs, and the theorems at inputs where their hypotheses hold.
mod Tracking
mod Tokens
mod Bulk
mod Factors
mod Throttling
mod Renewals
mod Validating
mod Accesses
mod Visits
mod Creations
mod Delegations
mod Elements
mod Actions
mod Codes
mod Names
mod Dynamics
