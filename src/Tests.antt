-- ===== src/Tests.antt =====
-- Concrete surroundings, and the theorems of the library at concrete inputs.
mod Fixtures
mod Query
mod Http
mod Text
mod Exchange
mod Orders
mod Sockets
mod Tables
mod Bag
mod Builder
mod KrakenClient
mod Directory
mod System
mod Programs
mod UserData
