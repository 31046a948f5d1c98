-- ===== src/Lib.antt =====
-- SPMod, a module of the Half-Life server that lets plugins take part in the game.
--
-- The parts and how they interact. The engine calls the module through the tables of
-- src/engine_api.cpp and src/dllapi.cpp. Messages that the game sends to the clients pass through the
-- message manager, whose hooks may withhold or change them. Every frame the timers run. Plugins hear
-- of events through forwards. A player answers a menu by a command, which goes to the menu manager, and
-- other commands go to the callbacks that plugins registered. Virtual functions of the game are hooked
-- by class, and console variables are cached with callbacks on their changes. The extension for
-- SourcePawn in subprojects/sourcepawn loads the plugins and gives them natives, which know the objects
-- of the core by numbers.
--
-- Common: lists, strings, integers and Boolean tests over the native numbers.
-- Dict: `std::unordered_map`, with the laws of its operations in Laws.
-- Handles: subprojects/sourcepawn/TypeHandler.hpp, the numbers of objects; Numbers and Keys hold the
--   proofs.
-- Utils: src/UtilsSystem.cpp. View has the views of strings, which know the bytes that follow them;
--   Copy is strCopy, Replace is strReplaced, ShowMenu is ShowMenu, Trim is trimMultiByteChar, TextMsg is
--   sendTextMsg.
-- Engine: the calls of the engine's functions for messages, and the answers to metamod.
-- Forward: src/ForwardSystem.cpp and include/public/IForwardSystem.hpp. Push has the seven push
--   functions, Exec has execFunc of both classes, Registry has ForwardMngr. Arguments, Delivery,
--   Uniqueness and Deletion hold the proofs.
-- Message: src/MessageSystem.cpp and .hpp. Message has class Message, Hooks has MessageHook and
--   MessageHooks, Manager has MessageMngr with getEdict of src/engine/Engine.cpp, Transaction follows a
--   whole message through the hooks of src/engine_api.cpp, and Closing has closeMenu as MessageBegin_Pre
--   calls it. Transaction/Unhooked and Transaction/Hooked hold the proofs.
-- Timer: src/TimerSystem.cpp and .hpp, with the part of StartFramePost of src/dllapi.cpp that runs
--   the timers. Shared has execTimers with callbacks that reach every timer, and proofs; Frame and
--   Changes hold the others.
-- Menu: src/MenuSystem.cpp and .hpp. Menu has the items and their operations, Draw and Display have
--   Menu::display up to its call of ShowMenu, which Sent adds, Select has MenuMngr and Player::closeMenu
--   of src/PlayerSystem.cpp. Answers, Changes, Loop, Contents, Ends, Select/Chosen and Select/Lookup hold the proofs.
-- Player: src/PlayerSystem.cpp and .hpp, the connection of a player and the authorisation of those
--   that wait. Waiting holds the proofs.
-- Command: src/CmdSystem.cpp and .hpp. Dispatch holds the proofs.
-- Cvar: src/CvarSystem.cpp and .hpp, with Cvar_DirectSetHook of src/RehldsApi.cpp. Changes and Cached
--   hold the proofs.
-- Plugin: subprojects/sourcepawn/PluginSystem.cpp and .hpp and src/NativeProxy.cpp. Bound has
--   bindPluginsNatives, Lookup the registries and getPlugin of src/SPGlobal.cpp, and Extensions its
--   loadExts and unloadExts; they hold proofs too, as Loading and Exported do.
-- VTable: src/VTableHookManager.cpp and .hpp. VTable has class VTableHook and the three hooks, Manager
--   has VTableHookManager. Stacks, Damage, Others and Restored hold the proofs.
-- Natives: subprojects/sourcepawn. Packed has the cells and menuPackItem of ExtMain.hpp. Timers has
--   TimerNatives.cpp, over Timer and Handles, with proofs in Lookup, Bound, Live and Dangling.
--   Forwards has the natives of ForwardsNatives.cpp that push, execute and cancel, with proofs in Delivered. Cvars has
--   CvarAddCallback of CvarsNatives.cpp, with proofs in Repeated, and Values its other natives, with
--   proofs in Values/Numbered. Menus has MenuNatives.cpp, over Menu and Handles; Call collects the
--   natives that take the number of a menu, and Refused, Stored and Destroyed hold the proofs. Messages
--   has MessageNatives.cpp, over Message and Handles, with proofs in Sent, Arguments and Unhooked.
--   Callbacks has NativeCallback.cpp and the natives of CoreNatives.cpp for the arguments of natives
--   that plugins provide, with proofs in Balanced and Accessed. Players has PlayerNatives.cpp, with
--   proofs in Address.
-- Adapter: subprojects/sourcepawn/ExtMain.cpp, the listener of forwards and, in Query, the test of the
--   versions. Passed and Results hold the proofs.
-- Tests: runs on concrete data.
--
-- State is passed explicitly: each operation takes the object and returns it with its result. Pointers
-- to objects are addresses, a null pointer is `none`, and an exception or an access that the language
-- leaves undefined is a value of its own. A `float` is its bit pattern, or a type with operations where
-- the code computes with it.
--
-- Bounds and fuel. Lengths and counters of 64 bits are written with their wrap where the code lets
-- them pass below zero; elsewhere a vector shorter than 2 ^ 64 is taken for granted. The loops that
-- have no structural argument take fuel: ShowMenu ends within three rounds or never, execTimers needs
-- one round more than there are timers, and the first loop of Menu::display one more than items and
-- slots of a page. The hook of console variables calls itself at most once, which takes a fuel of two.
--
-- Parameters of the model: the listeners of forwards, the handlers of message hooks, the callbacks of
-- timers, of menu items, of commands and of hooked functions, the functions of the game behind them,
-- the handlers of menus, what the engine tells of a player, its console variables, its regular
-- expressions, what SourcePawn reads from a file, the functions of its plugins, the place where a hash
-- table puts an element, and the addresses at which a context of SourcePawn has a cell. Closing the menu
-- of a player is an argument of Transaction, which Message/Closing provides. A listener or callback that
-- re-enters the very loop that called it is left out, but for the hooks of virtual functions, whose
-- stacks are there for it. The callbacks of timers change their own timer only, but in Timer/Shared.
--
-- Not modelled: the disconnection of players and their text messages, logging, the loading of shared
-- libraries, the table of offsets and the protection of memory of the hooks, the listing of
-- SPModInfoCommand, ShowMenu in the menus that a choice displays, the wrappers of engine and game
-- classes (src/engine but for getEdict and messageBegin, src/metamod, src/valve), and
-- of subprojects/sourcepawn the natives of commands and of hooked functions, those that make and remove
-- forwards, those that format a text or only call the engine, the listener of hooked functions, and the
-- copied printf library. The wrappers only call a library that the repository does not hold.
pub mod Common
pub mod Dict
pub mod Handles
pub mod Utils
pub mod Engine
pub mod Forward
pub mod Message
pub mod Timer
pub mod Menu
pub mod Player
pub mod Command
pub mod Cvar
pub mod Plugin
pub mod VTable
pub mod Natives
pub mod Adapter
pub mod Tests
