-- ===== src/Examples.antt =====
-- Runs of the services on a database of lists.
mod Invoices
mod Scheduling
mod SyncJobs
mod Auth
mod Reset
mod Contracts
mod WorkOrders
mod Access
mod ServiceContracts
mod Geo
mod Organizations
