-- ===== src/Tests.antt =====
-- Concrete inputs: runs of the modelled code, and each theorem applied where its hypotheses hold.
mod Requests
mod Stores
mod Lists
mod Served
mod Linked
mod Refreshed
mod Dumps
mod Meters
mod Locales
