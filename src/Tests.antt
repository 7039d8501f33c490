-- ===== src/Tests.antt =====
-- Tests, and each theorem with conditions at an input that meets them.
mod Times
mod Workers
mod Reports
mod Startups
mod Servers
mod Clients
mod Conversions
mod Archives
mod Schedules
mod Deployments
mod Commands
mod Warehouses
mod Services
