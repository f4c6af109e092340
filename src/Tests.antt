-- ===== src/Tests.antt =====
-- Runs of the model and uses of its theorems on concrete inputs.
mod Fixtures
mod MapTests
mod MapFetchTests
mod MowPathTests
mod EdgeTests
mod AuthTests
mod DeviceTests
mod InboundTests
mod BleTests
mod TransportTests
mod MessagingTests
mod BluetoothTests
mod TransferTests
