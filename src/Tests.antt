-- ===== src/Tests.antt =====
-- Runs of the definitions on concrete data, with the client of exchange/okx/stub_client.py.
mod Data
mod Parts
mod Trading
mod Starting
mod Managing
mod Storing
mod Queueing
mod Controlling
mod Delivering
