-- ===== src/Tests.antt =====
-- Runs of the model on concrete inputs, and every result at one of them.
mod Channels
mod Encodings
mod Buckets
mod Builders
mod Clients
mod Texts
mod Registry
mod Ownership
mod Renewal
mod Mailboxes
mod Endings
mod Placements
mod Tasks
