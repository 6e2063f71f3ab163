-- ===== src/Tests.antt =====
-- Runs of the theorems on small data: the instances of the parameters, the data, the witnesses.
mod Instances
mod Data
mod Accounts
mod Courses
mod Registers
mod Starts
mod Generated
mod Schemas
