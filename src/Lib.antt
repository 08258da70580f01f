-- ===== src/Lib.antt =====
-- The daemon weaved (buffet/) connects a device to the Weave cloud, and libweaved/ is the library
-- by which other processes use it over binder. The daemon's Manager owns a libweave device and
-- gives each client process a service object; BuffetConfig gives libweave its settings; ShillClient
-- tells it how the device is connected to the network and connects it; WebServClient, SocketStream,
-- HttpTransportClient, ApManagerClient and the mDNS client serve it in the network. A client
-- process holds a subscription to a ServiceImpl, which finds the manager, registers command
-- handlers, and is handed commands as libweaved's Command objects, in front of the daemon's
-- BinderCommandProxy.
--
-- Prelude: names of the libraries, Boolean tests, case splits, and maps with text keys.
-- Shill (buffet/shill_client.h, shill_client.cc): ShillClient. Shill has its state, the
--   connectivity state and its listeners; Shill.Connect an attempt to connect, from Connect to
--   ConnectToServiceError; Shill.Devices the devices and the services that they select;
--   Shill.Signals the signals of services; Shill.System all handlers as one step, and the states
--   that any order of events reaches. The proofs are in Shill.Connectivity, Shill.Replies,
--   Shill.Attempts, Shill.Outcome and Shill.Dropped.
-- NotificationListener (brillo/android/weave/IWeaveServiceManagerNotificationListener.aidl),
--   Settings (weave::Settings) and ServiceManager (brillo/android/weave/IWeaveServiceManager.aidl):
--   data and an interface that the components share.
-- Manager (buffet/manager.h, manager.cc): the manager's state and what it publishes;
--   Manager.Clients its clients and listeners, Manager.Device the device and the restart,
--   Manager.System all of it as one step, Manager.Available the manager with the web server client
--   that it owns, and Manager.Interface the manager behind its binder interface. The proofs are in
--   Manager.Notices, Manager.Served, Manager.Made, Manager.Shown and Manager.Available.
-- BuffetConfig (buffet/buffet_config.h, buffet_config.cc): settings in encrypted files;
--   BuffetConfig.Backends (also buffet/encryptor.h, keystore_encryptor.cc and fake_encryptor.cc)
--   the object with its encryptor and its files, and BuffetConfig.Defaults the defaults. The proofs
--   are in BuffetConfig.Stored, BuffetConfig.Refined and BuffetConfig.Overrides.
-- Strings and Status (common/binder_utils.h, binder_utils.cc): texts, statuses, errors and
--   dictionaries in binder calls.
-- Commands (buffet/binder_command_proxy.h, binder_command_proxy.cc): the binder interface of a
--   command, as a record, and the proxy that fills it; Commands.Client (libweaved/command.h,
--   command.cc) the client's Command over any such interface, and Commands.Parameter its
--   GetParameter. The proofs are in Commands.Delivery and Commands.Gone.
-- Connection (libweaved/service.h, service.cc): ServiceImpl and its subscription; Connection.Calls
--   what the client calls and is told, Connection.Life how it connects and is replaced. The proofs
--   are in Connection.Dispatch, Connection.Pairing, Connection.Retry (by Connection.Settled),
--   Connection.Newer and Connection.Replaced.
-- Session (libweaved/service.cc, buffet/manager.cc): Connection and Manager as two processes, with
--   the calls between them on their way, and the daemon dying and starting again; Session.Watched
--   the notifications of the manager to a client. The proofs are in Session.Found, Session.Once (by
--   Connection.Budget) and Session.Paired (by Session.Sent, Session.Steps and Session.Told).
-- WeaveService (buffet/binder_weave_service.h, binder_weave_service.cc): the service object that
--   the daemon gives a client, over a libweave device; WeaveService.Client (libweaved/service.cc)
--   what the client calls on it. The proofs are in WeaveService.Calls and WeaveService.Path.
-- Errors (buffet/weave_error_conversion.h): chains of errors; Errors.Conversion compares both
--   sides.
-- Sockets (buffet/socket_stream.h, socket_stream.cc): connections and their descriptors, and in
--   Sockets.Tls (also buffet/shill_client.cc) encrypted ones; Sockets.Descriptors counts
--   descriptors, and Sockets.Addresses is the text of an address.
-- Http (buffet/http_transport_client.h, http_transport_client.cc): requests of libweave, and in
--   Http.Answers what is answered.
-- WebServer (buffet/webserv_client.h, webserv_client.cc): ports and availability; WebServer.Request
--   the body of a request and WebServer.Handlers requests and their handlers. The proofs on ports
--   are in WebServer.Ports.
-- AccessPoint (buffet/ap_manager_client.h, ap_manager_client.cc; StartAccessPoint and
--   StopAccessPoint of buffet/shill_client.cc): the access point for the set-up; AccessPoint.Own is
--   about its services.
-- Daemon (buffet/main.cc): flags, options, start and shutdown of the daemon; the proofs are in
--   Daemon.Started.
-- Bluetooth (buffet/flouride_socket_bluetooth_client.cc): the socket of the bluetooth daemon.
-- Mdns (buffet/avahi_mdns_client.h, avahi_mdns_client.cc): the mDNS service of the daemon;
--   Mdns.Stub (also buffet/mdns_client.h, stub_mdns_client.cc) the interface, with the stub. The
--   proofs are in Mdns.Published.
-- The modules named Tests run the definitions at concrete inputs; Commands.UnitTests and
--   BuffetConfig.UnitTests are the unit tests of the program
--   (buffet/binder_command_proxy_unittest.cc and buffet_config_unittest.cc) on the definitions.
--
-- A function of the source keeps its name, in lower case with underscores. State is a record that a
-- function takes and gives; callbacks, binder objects and proxies are numbers; calls of others are
-- entries of a log of effects. A failed CHECK, which ends the process, is none. Loops are
-- structural recursion on the list that they run over, and need no fuel; only the reads of a
-- request's body are on fuel, and more fuel than the body has bytes is enough.
--
-- Code outside the repository is a parameter: ShillApi (D-Bus, the constants of shill, error
-- classes), BinderStrings (the texts of binder), Json, JsonValues and DictionaryValues
-- (base::Value), LibweaveCommands and LibweaveDevice (a libweave command and device), Storage
-- (files and encryption), which BuffetConfig.Backends fills from FileSystem, KeystoreClient and
-- Base64, Library (the key-value store and enumerations; in Daemon paths and the split of a flag),
-- Avahi (an entry group, with the laws that Avahi documents, and a re-initialisation that may lose
-- what it publishes), ByteStream and BrilloStream (streams), AddressFamilies (inet_ntop). The
-- answers of blocking calls are arguments of the operations. The records Honest, Separate and Reads
-- and the conditions Survives and JsonSurvives are what the code relies on.
--
-- Not modelled: how libwebserv finds the handler of a request; the stub of bluetooth, which has no
-- operation; the texts of the log; constants; the set-up of logs and signals in main.cc.
pub mod Prelude
pub mod Shill
pub mod NotificationListener
pub mod Settings
pub mod Strings
pub mod Manager
pub mod BuffetConfig
pub mod Status
pub mod ServiceManager
pub mod Commands
pub mod Connection
pub mod Mdns
pub mod WeaveService
pub mod Errors
pub mod Sockets
pub mod WebServer
pub mod AccessPoint
pub mod Daemon
pub mod Session
pub mod Http
pub mod Bluetooth
